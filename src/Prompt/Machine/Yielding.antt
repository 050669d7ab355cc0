-- ===== src/Prompt/Machine/Yielding.antt =====
-- A yield refines the step of the abstract machine.
use libmprompt.Base.{
  Bool, ne_of_has, ℕ, ◌<◌, ◌≡◌, ◌≢◌, refl, ap, sym, ◌∙◌, inl, inr, true, false, List, [], ◌∷◌, ◌++◌,
  has, ◌==◌, length, arith, ==_refl, Bool-cases, ==_iff, some, length-append, has-append,
  Distinct-behind,
}
use mathlib.Core.Path.{subst}
use libmprompt.Util.{guard}
use libmprompt.Prompt.State.{State, done}
use libmprompt.Prompt.Chain.{IsActive}
use libmprompt.Prompt.Switch.{call_yielded}
use libmprompt.Prompt.Yield.{LabelFits, yielded_state, yielded_state-IsSuspended, yield_to_lem}
use libmprompt.Prompt.Roundtrip.{yielded_state-jmp, yielded_state-ResumesSafely}
use libmprompt.Prompt.Machine.{Machine, free, running, yields, lands, suspended, run}
use libmprompt.Prompt.Machine.Represents.{
  Holds, Used, Labels, Represents, Only, Holds-frame, Used-frame, running-ReturnsSafely,
}

module _ (return_ip resume_ip : ℕ) (s : State) (p fun arg res : ℕ)
    (l : Labels return_ip resume_ip s) where
  yielded_state-Only : Only (λ x. p == x) s (yielded_state s p fun arg res)
  yielded_state-Only = record {
    prompts = λ x ne. ground arith;
    returns = λ r. yielded_state-jmp s p fun arg res r;
    resumes = λ r. refl;
    cookie = refl;
    debug = refl;
    return_label = λ r e. e;
    resume_label = λ r e. ground (arith, l.resumes r, l.resumes res);
  }

  yielded_state-Labels : Labels return_ip resume_ip (yielded_state s p fun arg res)
  yielded_state-Labels = record {
    return_label = l.return_label;
    resume_label = ground (arith, l.resume_label, l.resumes res);
    returns = λ r. ap (λ j. j.reg_ip) (yielded_state-jmp s p fun arg res r) ∙ l.returns r;
    resumes = l.resumes;
  }

-- The prompt `p` on the current chain, with `xs` above it and `ys` below.
module _ (debug : Bool) (return_ip resume_ip depth : ℕ) (s : State) (m : Machine) (p : ℕ)
    (xs ys : List ℕ) (w : Represents debug return_ip resume_ip depth s m)
    (cut : m.active ≡ xs ++ p ∷ ys) where
  active : IsActive s (xs ++ p ∷ ys)
  active = subst (IsActive s) cut w.active

  pub front_running : (x : ℕ) → has x (xs ++ p ∷ []) ≡ true → m.place x ≡ running
  front_running x i =
      w.marked x
        (ap (has x) cut ∙ ground (arith, has-append x xs (p ∷ ys), has-append x xs (p ∷ [])))

  back_running : (x : ℕ) → has x ys ≡ true → m.place x ≡ running
  back_running x i = w.marked x (ap (has x) cut ∙ ground (arith, has-append x xs (p ∷ ys)))

  p_running : m.place p ≡ running
  p_running = front_running p (ground (arith, has-append p xs (p ∷ [])))

  front_apart :
      (q x : ℕ) (zs : List ℕ)
      → Holds s m q zs
      → has x (xs ++ p ∷ []) ≡ true
      → has x (zs ++ q ∷ []) ≡ false
  front_apart q x zs h i = elim (Bool-cases (has x (zs ++ q ∷ []))) [
    | inl e ↦ absurd (ground (arith, h.marked x e, front_running x i))
    | inr e ↦ e
  ]

  short : (fuel : ℕ) → depth < fuel → length xs < fuel
  short fuel f = omega (arith, f, w.bounded, ap (length {0}) cut, length-append {0} xs (p ∷ ys))

  module _ (fun arg res : ℕ) (ne : res ≢ 0) where
    let_through : LabelFits s.resume_label (guard s.cookie (s.resumes res).jmp.reg_ip)
    let_through = rw (w.labels.resumes res) w.labels.resume_label

    held_self : Holds (yielded_state s p fun arg res) (suspended m p res xs ys) p xs
    held_self = record {
      chain = yielded_state-IsSuspended s p fun arg res xs ys active;
      resumes = yielded_state-ResumesSafely s p fun arg res ne let_through;
      stopped = rw (==_refl p) refl;
      marked = λ x i. rw i refl;
    }

    held_other :
        (q : ℕ) (zs : List ℕ)
        → (p == q) ≡ false
        → Holds s m q zs
        → Holds (yielded_state s p fun arg res) (suspended m p res xs ys) q zs
    held_other q zs e h =
        Holds-frame (λ x. p == x) s (yielded_state s p fun arg res) m (suspended m p res xs ys)
          (yielded_state-Only return_ip resume_ip s p fun arg res w.labels) q zs
          (λ x i.
            ne_of_has p x (zs ++ q ∷ []) i
              (front_apart q p zs h (ground (arith, has-append p xs (p ∷ [])))))
          (rw e refl) (λ x i. ground (arith, front_apart q x zs h)) h

    held_after :
        (q : ℕ) (zs : List ℕ)
        → (suspended m p res xs ys).captured q ≡ some zs
        → Holds (yielded_state s p fun arg res) (suspended m p res xs ys) q zs
    held_after q zs c = elim (Bool-cases (p == q)) [
      | inl e ↦
          subst (λ x. Holds (yielded_state s p fun arg res) (suspended m p res xs ys) x zs)
            ((==_iff p q).0 e)
            (subst (Holds (yielded_state s p fun arg res) (suspended m p res xs ys) p)
              (ground arith) held_self)
      | inr e ↦ held_other q zs e (w.held q zs (ground arith))
    ]

    used_self : Used (yielded_state s p fun arg res) (suspended m p res xs ys) p
    used_self =
        let u = w.used p (ground (arith, p_running)) in
        let after = yielded_state-Labels return_ip resume_ip s p fun arg res w.labels in
        record {
          refcount = rw (==_refl p) u.refcount;
          entered = rw (==_refl p) u.entered;
          gstack = rw (==_refl p) u.gstack;
          label =
              u.label
              ∙ ap (guard s.cookie)
                  (w.labels.returns (s.prompts p).return_point ∙ sym (after.returns _));
          sp = λ c. absurd (ground (arith, ==_refl p));
        }

    used_after :
        (x : ℕ)
        → (suspended m p res xs ys).place x ≢ free
        → Used (yielded_state s p fun arg res) (suspended m p res xs ys) x
    used_after x u = elim (Bool-cases (p == x)) [
      | inl e ↦
          subst (Used (yielded_state s p fun arg res) (suspended m p res xs ys)) ((==_iff p x).0 e)
            used_self
      | inr e ↦
          Used-frame (λ x. p == x) s (yielded_state s p fun arg res) m (suspended m p res xs ys)
            (yielded_state-Only return_ip resume_ip s p fun arg res w.labels) x e refl refl
            (λ c. ground arith) (w.used x (ground (arith, front_running x)))
    ]

    pub yields_lem :
        (fuel : ℕ)
        → depth < fuel
        → (t : State) × (run fuel (yields p fun arg res) s
            ≡ done (lands (m.entered_at p) (call_yielded fun p arg)) t)
          × Represents debug return_ip resume_ip depth t (suspended m p res xs ys)
    yields_lem fuel f =
        let t = yielded_state s p fun arg res in
        let u = w.used p (ground (arith, p_running)) in
        let (runs, landed, chain, below) =
          yield_to_lem s fuel fuel p fun arg res xs ys active
            (running-ReturnsSafely debug return_ip resume_ip depth s m p w p_running)
            (short fuel f) in
        (
          t,
          rw (runs, landed, u.entered) refl,
          record {
            labels = yielded_state-Labels return_ip resume_ip s p fun arg res w.labels;
            active = below;
            bounded = omega (arith, w.bounded, ap (length {0}) cut, length-append {0} xs (p ∷ ys));
            marked =
                λ x i. ground (arith, back_running x, Distinct-behind x p xs ys active.distinct);
            released = w.released;
            same_debug = w.same_debug;
            held_short = λ q zs c. elim (Bool-cases (p == q)) [
              | inl e ↦
                  let same : xs ≡ zs = ground arith in
                  rw (sym same)
                    (omega (arith, w.bounded, ap (length {0}) cut, length-append {0} xs (p ∷ ys)))
              | inr e ↦ w.held_short q zs (ground arith)
            ];
            held = held_after;
            used = used_after;
          },
        )
