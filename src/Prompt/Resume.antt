-- ===== src/Prompt/Resume.antt =====
-- `mp_resume` of a once resumption (`mp_prompt_resume`) up to its landing in `mp_yield`, and the
-- return of a prompt's function.
use libmprompt.Base.{
  ℕ, ◌<◌, ◌≡◌, refl, ap, ◌∙◌, ◌≢◌, false, List, [], ◌∷◌, ◌++◌, arith, ◌==◌, if◌then◌else◌, write,
  write_self, ==_refl, length, Distinct,
}
use libmprompt.Util.{guard}
use libmprompt.Prompt.State.{State, done, check-done, load-done, assert-done}
use libmprompt.Prompt.Ops.{prompt_is_active, prompt_is_ancestor}
use libmprompt.Prompt.Switch.{to_resume, init_return_label, prompt_resume, yield_resumed}
use libmprompt.Prompt.Chain.{parent_of, IsActive, IsSuspended}
use libmprompt.Base.Chain.{Chain-cut}
use libmprompt.Prompt.Link.{
  prompt_is_ancestor-true, at_middle, linked, linked-IsActive, prompt_link_lem,
}
use libmprompt.Prompt.Yield.{checked_longjmp-done, prompt_is_active-true, ReturnsSafely, LabelFits}

-- The resume point of the suspended prompt `p` is the one that it yielded from.
pub record ResumesSafely (s : State) (p : ℕ) : Type 0 where
  pub sp_guarded :
      (s.prompts p).sp ≡ guard s.cookie (s.resumes (s.prompts p).resume_point).jmp.reg_sp
  pub ip_guarded : s.resume_label ≡ guard s.cookie (s.resumes (s.prompts p).resume_point).jmp.reg_ip
  pub yielded : (s.prompts p).resume_point ≢ 0

-- The state with the return label set.
abbrev pub return_labelled : State → ℕ → State
return_labelled s ip = record s {
  return_label = if s.return_label == 0 then guard s.cookie ip else s.return_label;
}

pub init_return_label_run :
    (s : State) (ip : ℕ) → init_return_label ip s ≡ done tt (return_labelled s ip)
init_return_label_run s ip = ground arith

-- The state in which a resume lands.
abbrev pub resumed_state : State → (p arg ret : ℕ) → State
resumed_state s p arg ret =
    let res = (s.prompts p).resume_point in
    let t = linked (return_labelled s (s.returns ret).jmp.reg_ip) p ret in
    record t { resumes = write t.resumes res (record (s.resumes res) { result = arg }) }

-- A suspended prompt is at the bottom of what it has captured.
parent-null : (s : State) (p : ℕ) (xs : List ℕ) → IsSuspended s p xs → (s.prompts p).parent ≡ 0
parent-null s p xs v = (Chain-cut (parent_of s) (s.prompts p).top 0 p xs [] v.chain).1

pub return_labelled-IsSuspended :
    (s : State) (ip p : ℕ) (xs : List ℕ)
    → IsSuspended s p xs
    → IsSuspended (return_labelled s ip) p xs
return_labelled-IsSuspended s ip p xs v = record {
  chain = v.chain;
  above = v.above;
  ne_null = v.ne_null;
  live = v.live;
  top_ne = v.top_ne;
  distinct = v.distinct;
}

prompt_resume_run :
    (s : State) (p arg ret : ℕ) (xs ys : List ℕ)
    → ret ≢ 0
    → IsSuspended s p xs
    → IsActive s ys
    → Distinct (xs ++ p ∷ ys)
    → ResumesSafely s p
    → prompt_resume p arg ret s
      ≡ done (to_resume (s.prompts p).resume_point) (resumed_state s p arg ret)
unfolding prompt_resume
prompt_resume_run s p arg ret xs ys h v w d g =
    let t = return_labelled s (s.returns ret).jmp.reg_ip in
    let e = s.resumes (s.prompts p).resume_point in
    let u = resumed_state s p arg ret in
    let tv = return_labelled-IsSuspended s (s.returns ret).jmp.reg_ip p xs v in
    let ne : ((s.prompts p).resume_point == 0) ≡ false = ground (arith, g.yielded) in
    let tw : IsActive t ys = record { chain = w.chain; each = w.each; distinct = w.distinct } in
    rw
      (
        init_return_label_run s (s.returns ret).jmp.reg_ip,
        prompt_resume,
        load-done p t v.live,
        assert-done ((s.prompts p).parent == 0) t (ground (arith, parent-null s p xs v)),
        (prompt_link_lem t p ret xs ys h tv tw d).0,
        ne,
        checked_longjmp-done u u.resume_label (s.prompts p).sp e.jmp g.ip_guarded g.sp_guarded,
      )
      refl

resumed_state-IsActive :
    (s : State) (p arg ret : ℕ) (xs ys : List ℕ)
    → IsSuspended s p xs
    → IsActive s ys
    → Distinct (xs ++ p ∷ ys)
    → IsActive (resumed_state s p arg ret) (xs ++ p ∷ ys)
resumed_state-IsActive s p arg ret xs ys v w d =
    let ip = (s.returns ret).jmp.reg_ip in
    let t = return_labelled s ip in
    let tw : IsActive t ys = record { chain = w.chain; each = w.each; distinct = w.distinct } in
    let l = linked-IsActive t p ret xs ys (return_labelled-IsSuspended s ip p xs v) tw d in
    record { chain = l.chain; each = l.each; distinct = l.distinct }

yield_resumed_run :
    (s : State) (fuel p res : ℕ) (xs ys : List ℕ)
    → IsActive s (xs ++ p ∷ ys)
    → length xs < fuel
    → yield_resumed fuel p res s ≡ done (s.resumes res).result s
unfolding yield_resumed
yield_resumed_run s fuel p res xs ys v l =
    rw
      (
        check-done (prompt_is_active p) s (prompt_is_active-true s p (at_middle s p xs ys v)),
        check-done (prompt_is_ancestor fuel p) s (prompt_is_ancestor-true s p xs ys fuel v l),
        yield_resumed,
      )
      refl

resumed_state-ReturnsSafely :
    (s : State) (p arg ret : ℕ)
    → LabelFits s.return_label (guard s.cookie (s.returns ret).jmp.reg_ip)
    → ReturnsSafely (resumed_state s p arg ret) p
resumed_state-ReturnsSafely s p arg ret i = record {
  sp_guarded = rw (==_refl p);
  ip_guarded = rw (==_refl p) (ground arith);
}

-- A resume of a suspended prompt jumps back to where it yielded from, `mp_yield` returns there the
-- value that the resume was given, and the captured prompts stand on top of the current chain. The
-- prompt returns from now on to the resume, by a jump that its check lets through.
pub prompt_resume_lem :
    (s : State) (fuel p arg ret : ℕ) (xs ys : List ℕ)
    → ret ≢ 0
    → IsSuspended s p xs
    → IsActive s ys
    → Distinct (xs ++ p ∷ ys)
    → ResumesSafely s p
    → LabelFits s.return_label (guard s.cookie (s.returns ret).jmp.reg_ip)
    → length xs < fuel
    → let res = (s.prompts p).resume_point in
      let t = resumed_state s p arg ret in
      (prompt_resume p arg ret s ≡ done (to_resume res) t)
      × (yield_resumed fuel p res t ≡ done arg t)
      × IsActive t (xs ++ p ∷ ys)
      × ((t.prompts p).return_point ≡ ret)
      × ReturnsSafely t p
prompt_resume_lem s fuel p arg ret xs ys h v w d g i l =
    let res = (s.prompts p).resume_point in
    let t = resumed_state s p arg ret in
    let a = resumed_state-IsActive s p arg ret xs ys v w d in
    (
      prompt_resume_run s p arg ret xs ys h v w d g,
      yield_resumed_run t fuel p res xs ys a l
          ∙ ap (λ r. done r.result t)
              (write_self s.resumes res (record (s.resumes res) { result = arg })),
      a,
      rw (==_refl p),
      resumed_state-ReturnsSafely s p arg ret i,
    )
