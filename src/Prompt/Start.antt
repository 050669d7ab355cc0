-- ===== src/Prompt/Start.antt =====
-- `mp_prompt` of src/mprompt/mprompt.c: a new prompt, entered.
use libmprompt.Base.{
  ℕ, ◌≡◌, refl, ◌≢◌, true, false, List, [], ◌∷◌, arith, ◌==◌, write, ==_refl, Distinct, has,
  ne_of_has,
}
use libmprompt.Base.Int.{pos}
use libmprompt.Util.{guard}
use libmprompt.Prompt.State.{State, done, check-done, load-done, assert-done}
use libmprompt.Prompt.Ops.{prompt_is_suspended, prompt_create}
use libmprompt.Prompt.Switch.{enter_stack, prompt_enter, mp_prompt}
use libmprompt.Prompt.Chain.{IsActive, IsSuspended, Chain-frame, ActiveAt-frame}
use libmprompt.Prompt.Link.{linked, linked-IsActive, prompt_link_lem}
use libmprompt.Prompt.Yield.{prompt_is_suspended-true, ReturnsSafely, LabelFits}
use libmprompt.Prompt.Resume.{return_labelled, init_return_label_run, return_labelled-IsSuspended}

-- The state with the new prompt.
abbrev pub created : State → (gstack p : ℕ) → State
created s gstack p = record s {
  prompts = write s.prompts p (record {
    parent = 0;
    top = p;
    refcount = pos 1;
    gstack = gstack;
    return_point = 0;
    resume_point = 0;
    sp = (s.prompts p).sp;
    unwind_frame = 0;
    live = true;
  });
}

-- The state in which the new stack is entered.
abbrev pub entered : State → (gstack p ret : ℕ) → State
entered s gstack p ret =
    linked (return_labelled (created s gstack p) (s.returns ret).jmp.reg_ip) p ret

module _ (s : State) (gstack p : ℕ) (ne_null : p ≢ 0) where
  created-IsSuspended : IsSuspended (created s gstack p) p []
  created-IsSuspended = record {
    chain = ground arith;
    above = tt;
    ne_null = ne_null;
    live = rw (==_refl p);
    top_ne = rw (==_refl p) ne_null;
    distinct = (refl, tt);
  }

  created-IsActive :
      (ys : List ℕ) → has p ys ≡ false → IsActive s ys → IsActive (created s gstack p) ys
  created-IsActive ys out w =
      let t = created s gstack p in
      let same : (x : ℕ) → has x ys ≡ true → t.prompts x ≡ s.prompts x =
        λ x i. let ne = ne_of_has p x ys i out in ground arith in
      record {
        chain = Chain-frame s t s.prompt_top 0 ys same w.chain;
        each = ActiveAt-frame s t ys same w.each;
        distinct = w.distinct;
      }

  create_run : gstack ≢ 0 → prompt_create gstack p s ≡ done p (created s gstack p)
  unfolding prompt_create
  create_run h = ground arith

enter_run :
    (s : State) (p env ret : ℕ) (ys : List ℕ)
    → ret ≢ 0
    → IsSuspended s p []
    → IsActive s ys
    → Distinct (p ∷ ys)
    → (s.prompts p).parent ≡ 0
    → (s.prompts p).resume_point ≡ 0
    → prompt_enter p env ret s
      ≡ done (enter_stack p env) (linked (return_labelled s (s.returns ret).jmp.reg_ip) p ret)
unfolding prompt_enter
enter_run s p env ret ys h v w d root new =
    let t = return_labelled s (s.returns ret).jmp.reg_ip in
    let tv = return_labelled-IsSuspended s (s.returns ret).jmp.reg_ip p [] v in
    let tw : IsActive t ys = record { chain = w.chain; each = w.each; distinct = w.distinct } in
    rw
      (
        prompt_enter,
        check-done (prompt_is_suspended p) s (prompt_is_suspended-true s p [] v),
        load-done p s v.live,
        assert-done ((s.prompts p).resume_point == 0) s (ground arith),
        init_return_label_run s (s.returns ret).jmp.reg_ip,
        load-done p t v.live,
        assert-done ((s.prompts p).parent == 0) t (ground arith),
        (prompt_link_lem t p ret [] ys h tv tw d).0,
        new,
      )
      refl

-- A call with a new stack enters it with a new prompt on top of the current chain. The prompt has one
-- reference and returns to the call, by a jump that its check lets through. No assertion fails.
pub mp_prompt_lem :
    (s : State) (gstack p env ret : ℕ) (ys : List ℕ)
    → gstack ≢ 0
    → p ≢ 0
    → ret ≢ 0
    → IsActive s ys
    → has p ys ≡ false
    → LabelFits s.return_label (guard s.cookie (s.returns ret).jmp.reg_ip)
    → let t = entered s gstack p ret in
      (mp_prompt gstack p env ret s ≡ done (enter_stack p env) t)
      × IsActive t (p ∷ ys)
      × ((t.prompts p).refcount ≡ pos 1)
      × ((t.prompts p).return_point ≡ ret)
      × ReturnsSafely t p
unfolding mp_prompt
mp_prompt_lem s gstack p env ret ys hg hp hr w out label =
    let c = created s gstack p in
    let ip = (s.returns ret).jmp.reg_ip in
    let v = created-IsSuspended s gstack p hp in
    let cw = created-IsActive s gstack p hp ys out w in
    let lw : IsActive (return_labelled c ip) ys = record {
      chain = cw.chain;
      each = cw.each;
      distinct = cw.distinct;
    } in
    (
      rw (mp_prompt, create_run s gstack p hp hg)
          (enter_run c p env ret ys hr v cw (out, w.distinct) (rw (==_refl p)) (rw (==_refl p))),
      linked-IsActive (return_labelled c ip) p ret [] ys (return_labelled-IsSuspended c ip p [] v)
          lw (out, w.distinct),
      rw (==_refl p),
      rw (==_refl p),
      record { sp_guarded = rw (==_refl p); ip_guarded = rw (==_refl p) (ground arith) },
    )
