-- ===== src/Prompt/Machine/Resuming.antt =====
-- A resume refines the step of the abstract machine.
use libmprompt.Base.{
  Bool, ne_of_has, ℕ, ◌<◌, ◌≤◌, ◌≡◌, ◌≢◌, refl, ap, sym, ◌∙◌, inl, inr, true, false, List, [], ◌∷◌,
  ◌++◌, has, ◌==◌, length, arith, ==_refl, Bool-cases, write_self, some, length-append, has-append,
  Distinct-join, not,
}
use libmprompt.Util.{guard}
use libmprompt.Prompt.State.{State, done, load-done, assert-done}
use libmprompt.Prompt.Dispatch.{resume_once}
use libmprompt.Prompt.Switch.{prompt_resume}
use libmprompt.Base.Int.{pos, eq_ℤ}
use libmprompt.Prompt.Yield.{LabelFits}
use libmprompt.Prompt.Resume.{resumed_state, prompt_resume_lem}
use libmprompt.Prompt.Machine.{Machine, free, running, resumes, continues, restarted, run}
use libmprompt.Prompt.Machine.Represents.{
  Holds, Used, Labels, Represents, Only, Holds-frame, Used-frame, Used-entered,
}

module _ (return_ip resume_ip : ℕ) (s : State) (p value ret : ℕ)
    (l : Labels return_ip resume_ip s) where
  resumed_state-jmp :
      (res : ℕ) → ((resumed_state s p value ret).resumes res).jmp ≡ (s.resumes res).jmp
  resumed_state-jmp res = ground arith

  resumed_state-Only : Only (λ x. p == x) s (resumed_state s p value ret)
  resumed_state-Only = record {
    prompts = λ x ne. ground arith;
    returns = λ r. refl;
    resumes = resumed_state-jmp;
    cookie = refl;
    debug = refl;
    return_label = λ r e. ground (arith, l.returns r, l.returns ret);
    resume_label = λ r e. e;
  }

  resumed_state-Labels : Labels return_ip resume_ip (resumed_state s p value ret)
  resumed_state-Labels = record {
    return_label = ground (arith, l.return_label, l.returns ret);
    resume_label = l.resume_label;
    returns = l.returns;
    resumes = λ r. ap (λ j. j.reg_ip) (resumed_state-jmp r) ∙ l.resumes r;
  }

-- The suspended prompt `p` with `xs` above it.
module _ (debug : Bool) (return_ip resume_ip depth : ℕ) (s : State) (m : Machine) (p : ℕ)
    (xs : List ℕ) (w : Represents debug return_ip resume_ip depth s m)
    (cap : m.captured p ≡ some xs) where
  h : Holds s m p xs
  h = w.held p xs cap

  apart_active : (x : ℕ) → has x (xs ++ p ∷ []) ≡ true → has x m.active ≡ false
  apart_active x i = elim (Bool-cases (has x m.active)) [
    | inl e ↦ absurd (ground (arith, h.marked x i, w.marked x e))
    | inr e ↦ e
  ]

  apart_held :
      (q x : ℕ) (zs : List ℕ)
      → (p == q) ≡ false
      → Holds s m q zs
      → has x (xs ++ p ∷ []) ≡ true
      → has x (zs ++ q ∷ []) ≡ false
  apart_held q x zs ne k i = elim (Bool-cases (has x (zs ++ q ∷ []))) [
    | inl e ↦ absurd (ground (arith, h.marked x i, k.marked x e))
    | inr e ↦ e
  ]

  p_held : has p (xs ++ p ∷ []) ≡ true
  p_held = ground (arith, has-append p xs (p ∷ []))

  module _ (value ret : ℕ) where
    held_after :
        (q : ℕ) (zs : List ℕ)
        → (restarted m p ret xs).captured q ≡ some zs
        → Holds (resumed_state s p value ret) (restarted m p ret xs) q zs
    held_after q zs c =
        let ne : (p == q) ≡ false = ground arith in
        let k = w.held q zs (ground arith) in
        Holds-frame (λ x. p == x) s (resumed_state s p value ret) m (restarted m p ret xs)
          (resumed_state-Only return_ip resume_ip s p value ret w.labels) q zs
          (λ x i. ne_of_has p x (zs ++ q ∷ []) i (apart_held q p zs ne k p_held)) refl
          (λ x i. ground (arith, apart_held q x zs ne k)) k

    used_other :
        (x : ℕ)
        → (p == x) ≡ false
        → (restarted m p ret xs).place x ≢ free
        → Used (resumed_state s p value ret) (restarted m p ret xs) x
    used_other x ne u =
        Used-frame (λ x. p == x) s (resumed_state s p value ret) m (restarted m p ret xs)
          (resumed_state-Only return_ip resume_ip s p value ret w.labels) x ne (rw ne refl) refl
          (λ c. ground arith) (w.used x (ground (arith, h.marked x)))

    marked_after :
        (x : ℕ) → has x (xs ++ p ∷ m.active) ≡ true → (restarted m p ret xs).place x ≡ running
    marked_after x i =
        ground (arith, has-append x xs (p ∷ []), has-append x xs (p ∷ m.active), w.marked x)

    resume_once_run : resume_once p value ret s ≡ prompt_resume p value ret s
    unfolding resume_once
    resume_once_run =
        let one = (w.used p (ground (arith, h.marked p p_held))).refcount in
        rw
          (
            load-done p s h.chain.live,
            assert-done (eq_ℤ (s.prompts p).refcount (pos 1)) s (rw one refl),
            assert-done (not ((s.prompts p).resume_point == 0)) s
                (ground (arith, h.resumes.yielded)),
            resume_once,
          )
          refl

    pub resumes_lem :
        (fuel : ℕ)
        → depth < fuel
        → ret ≢ 0
        → length (xs ++ p ∷ m.active) ≤ depth
        → (t : State) × (run fuel (resumes p value ret) s
            ≡ done (continues (m.stopped_at p) value) t)
          × Represents debug return_ip resume_ip depth t (restarted m p ret xs)
    resumes_lem fuel f ne short =
        let t = resumed_state s p value ret in
        let fits : LabelFits s.return_label (guard s.cookie (s.returns ret).jmp.reg_ip) =
          rw (w.labels.returns ret) w.labels.return_label in
        let d = Distinct-join p xs m.active h.chain.distinct w.active.distinct apart_active in
        let (runs, continued, chain, point, safe) =
          prompt_resume_lem s fuel p value ret xs m.active ne h.chain w.active d h.resumes fits
            (omega (arith, length-append {0} xs (p ∷ m.active))) in
        (
          t,
          rw (resume_once_run, runs, continued, h.stopped) refl,
          record {
            labels = resumed_state-Labels return_ip resume_ip s p value ret w.labels;
            active = chain;
            bounded = short;
            marked = marked_after;
            released = w.released;
            same_debug = w.same_debug;
            held_short = λ q zs c. w.held_short q zs (ground arith);
            held = held_after;
            used = λ x u. elim (Bool-cases (p == x)) [
              | inl e ↦
                  Used-entered t (restarted m p ret xs) p x e
                    (rw (==_refl p) (w.used p (ground (arith, h.marked p p_held))).refcount)
                    (point ∙ sym (write_self m.entered_at p ret))
                    (rw (==_refl p) (w.used p (ground (arith, h.marked p p_held))).gstack) safe
              | inr e ↦ used_other x e u
            ];
          },
        )
