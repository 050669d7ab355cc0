-- ===== src/Prompt/Machine/Begin.antt =====
-- A new prompt refines the step of the abstract machine.
use libmprompt.Base.{
  Bool, ℕ, ◌<◌, ◌≡◌, ◌≢◌, refl, sym, ◌∙◌, inl, inr, false, List, [], ◌∷◌, ◌++◌, has, ◌==◌, length,
  arith, ==_refl, Bool-cases, ne_of_has, write_self,
}
use libmprompt.Util.{guard}
use libmprompt.Prompt.State.{State, done}
use libmprompt.Prompt.Yield.{LabelFits}
use libmprompt.Prompt.Start.{entered, mp_prompt_lem}
use libmprompt.Prompt.Machine.{Machine, free, begins, enters, begun, run}
use libmprompt.Prompt.Machine.Represents.{
  Holds, Labels, Represents, Only, Holds-frame, Used-frame, Used-entered,
}

entered-Only :
    (s : State) (gstack p ret ip : ℕ)
    → ((r : ℕ) → (s.returns r).jmp.reg_ip ≡ ip)
    → Only (λ x. p == x) s (entered s gstack p ret)
entered-Only s gstack p ret ip same = record {
  prompts = λ x ne. ground arith;
  returns = λ r. refl;
  resumes = λ r. refl;
  cookie = refl;
  debug = refl;
  return_label = λ r e. ground (arith, same r, same ret);
  resume_label = λ r e. e;
}

entered-Labels :
    (s : State) (gstack p ret return_ip resume_ip : ℕ)
    → Labels return_ip resume_ip s
    → Labels return_ip resume_ip (entered s gstack p ret)
entered-Labels s gstack p ret return_ip resume_ip l = record {
  return_label = ground (arith, l.return_label, l.returns ret);
  resume_label = l.resume_label;
  returns = l.returns;
  resumes = l.resumes;
}

-- The machine has the prompt `p` in no use.
module _ (debug : Bool) (return_ip resume_ip depth : ℕ) (s : State) (m : Machine) (gstack p ret : ℕ)
    (w : Represents debug return_ip resume_ip depth s m) (unused : m.place p ≡ free) where
  fresh : has p m.active ≡ false
  fresh = elim (Bool-cases (has p m.active)) [
    | inl e ↦ absurd (ground (arith, w.marked p e))
    | inr e ↦ e
  ]

  fresh_held : (q : ℕ) (xs : List ℕ) → Holds s m q xs → has p (xs ++ q ∷ []) ≡ false
  fresh_held q xs h = elim (Bool-cases (has p (xs ++ q ∷ []))) [
    | inl e ↦ absurd (ground (arith, h.marked p e))
    | inr e ↦ e
  ]

  pub begins_lem :
      (fuel env : ℕ)
      → gstack ≢ 0
      → p ≢ 0
      → ret ≢ 0
      → length m.active < depth
      → (t : State) × (run fuel (begins gstack p env ret) s ≡ done (enters p env) t)
        × Represents debug return_ip resume_ip depth t (begun m gstack p ret)
  begins_lem fuel env hg hp hr short =
      let t = entered s gstack p ret in
      let n = begun m gstack p ret in
      let only = entered-Only s gstack p ret return_ip w.labels.returns in
      let fits : LabelFits s.return_label (guard s.cookie (s.returns ret).jmp.reg_ip) =
        rw (w.labels.returns ret) w.labels.return_label in
      let (runs, act, count, point, safe) =
        mp_prompt_lem s gstack p env ret m.active hg hp hr w.active fresh fits in
      (
        t,
        rw runs refl,
        record {
          labels = entered-Labels s gstack p ret return_ip resume_ip w.labels;
          active = act;
          bounded = omega arith;
          released = w.released;
          same_debug = w.same_debug;
          held_short = w.held_short;
          marked = λ x i. ground (arith, w.marked x);
          held = λ q xs c.
              let h = w.held q xs c in
              let out = fresh_held q xs h in
              Holds-frame (λ x. p == x) s t m n only q xs
                (λ x i. ne_of_has p x (xs ++ q ∷ []) i out) refl
                (λ x i. ground (arith, ne_of_has p x (xs ++ q ∷ []) i out)) h;
          used = λ x u. elim (Bool-cases (p == x)) [
            | inl e ↦
                Used-entered t n p x e count (point ∙ sym (write_self m.entered_at p ret))
                  (ground (arith, ==_refl p)) safe
            | inr e ↦
                Used-frame (λ x. p == x) s t m n only x e (ground arith) (ground arith) (λ c. c)
                  (w.used x (ground arith))
          ];
        },
      )
