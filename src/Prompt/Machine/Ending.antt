-- ===== src/Prompt/Machine/Ending.antt =====
-- The end of a prompt's function refines the step of the abstract machine.
use libmprompt.Base.{
  ℕ, suc, ◌≤◌, ◌≡◌, refl, ap, ◌∙◌, inl, inr, Bool, true, false, List, [], ◌∷◌, ◌++◌, has, length,
  arith, ==_refl, Bool-cases, ne_of_has, Option, none, some,
}
use mathlib.Core.Path.{subst, ap₂}
use libmprompt.Prompt.State.{State, ReturnKind, returned, exception, done, ◌>>◌, pure, and_then}
use libmprompt.Prompt.Ops.{prompt_drop_internal}
use libmprompt.Prompt.Chain.{IsActive}
use libmprompt.Prompt.Switch.{
  Next, return_value, rethrow, exec_kind, stack_entry_return, stack_entry_exception,
}
use libmprompt.Prompt.Free.{SamePoints}
use libmprompt.Prompt.Return.{ended_state, landing_lem, stack_entry_end, stack_entry_end_run}
use libmprompt.Prompt.Machine.{Machine, free, running, mark, ends, throws, lands, ended, land, run}
use libmprompt.Prompt.Machine.Represents.{
  Holds, Labels, Represents, Only, Holds-frame, Used-frame, running-ReturnsSafely,
}

-- A state in which only the touched prompts and the contents of return points are others.
pub freed-Only :
    (touched : ℕ → Bool) (s t s' : State)
    → ((x : ℕ) → touched x ≡ false → s'.prompts x ≡ s.prompts x)
    → ((r : ℕ) → (t.returns r).jmp ≡ (s.returns r).jmp)
    → t.resumes ≡ s.resumes
    → t.return_label ≡ s.return_label
    → t.resume_label ≡ s.resume_label
    → t.cookie ≡ s.cookie
    → t.debug ≡ s.debug
    → SamePoints t s'
    → Only touched s s'
freed-Only touched s t s' same jmps resumes l k c d g = record {
  prompts = same;
  returns = λ r. ap (λ h. (h r).jmp) g.returns ∙ jmps r;
  resumes = λ r. ap (λ h. (h r).jmp) (g.resumes ∙ resumes);
  cookie = g.cookie ∙ c;
  debug = g.debug ∙ d;
  return_label = λ r e. g.return_label ∙ l ∙ e;
  resume_label = λ r e. g.resume_label ∙ k ∙ e;
}

ended_state-jmp :
    (s : State) (p result : ℕ) (kind : ReturnKind) (r : ℕ)
    → ((ended_state s p result kind).returns r).jmp ≡ (s.returns r).jmp
ended_state-jmp s p result kind r = ground arith

module _ (return_ip resume_ip : ℕ) where
  Labels-frame :
      (touched : ℕ → Bool) (s s' : State)
      → Only touched s s'
      → s'.return_label ≡ s.return_label
      → s'.resume_label ≡ s.resume_label
      → Labels return_ip resume_ip s
      → Labels return_ip resume_ip s'
  Labels-frame touched s s' only e f l = record {
    return_label = rw (e, only.cookie) l.return_label;
    resume_label = rw (f, only.cookie) l.resume_label;
    returns = λ r. ap (λ j. j.reg_ip) (only.returns r) ∙ l.returns r;
    resumes = λ r. ap (λ j. j.reg_ip) (only.resumes r) ∙ l.resumes r;
  }

module _ (debug : Bool) (return_ip resume_ip depth : ℕ) (s : State) (m : Machine)
    (w : Represents debug return_ip resume_ip depth s m) where
  -- The machine without the prompts `ps`.
  abbrev pub without : (ps : List ℕ) → List (ℕ × Bool) → List ℕ → (ℕ → Option (List ℕ)) → Machine
  without ps released ys cap = record m {
    released = released;
    active = ys;
    captured = cap;
    place = mark ps free m.place;
  }

  pub freed-Represents :
      (s' : State) (ps : List ℕ) (released : List (ℕ × Bool)) (ys : List ℕ)
      (cap : ℕ → Option (List ℕ))
      → Only (λ x. has x ps) s s'
      → s'.return_label ≡ s.return_label
      → s'.resume_label ≡ s.resume_label
      → s'.released ≡ released
      → IsActive s' ys
      → length ys ≤ depth
      → ((x : ℕ) → has x ys ≡ true → (has x m.active ≡ true) × (has x ps ≡ false))
      → ((q : ℕ) (zs : List ℕ)
          → cap q ≡ some zs
          → (m.captured q ≡ some zs) × ((x : ℕ) → has x (zs ++ q ∷ []) ≡ true → has x ps ≡ false))
      → ((x : ℕ) → has x ps ≡ false → cap x ≡ none → m.captured x ≡ none)
      → Represents debug return_ip resume_ip depth s' (without ps released ys cap)
  freed-Represents s' ps released ys cap only e f stacks act short sub keep back =
      let n = without ps released ys cap in
      record {
        labels = Labels-frame return_ip resume_ip (λ x. has x ps) s s' only e f w.labels;
        active = act;
        bounded = short;
        released = stacks;
        same_debug = only.debug ∙ w.same_debug;
        held_short = λ q zs c. w.held_short q zs (keep q zs c).0;
        marked = λ x i. ground (arith, sub x i, w.marked x);
        held = λ q zs c.
            let (c', out) = keep q zs c in
            Holds-frame (λ x. has x ps) s s' m n only q zs out refl (λ x i. ground (arith, out x i))
              (w.held q zs c');
        used = λ x u.
            let ne : has x ps ≡ false = ground arith in
            Used-frame (λ x. has x ps) s s' m n only x ne refl refl (back x ne)
              (w.used x (ground arith));
      }

module _ (debug : Bool) (return_ip resume_ip depth : ℕ) (s : State) (m : Machine) (p : ℕ)
    (w : Represents debug return_ip resume_ip depth s m) where
  -- A prompt on top of the current chain ends.
  module _ (ys : List ℕ) (top : m.active ≡ p ∷ ys) where
    top_active : IsActive s (p ∷ ys)
    top_active = subst (IsActive s) top w.active

    pub top_running : m.place p ≡ running
    top_running = w.marked p (ap (has p) top ∙ ground (arith, ==_refl p))

    top_apart : (q : ℕ) (zs : List ℕ) → Holds s m q zs → has p (zs ++ q ∷ []) ≡ false
    top_apart q zs h = elim (Bool-cases (has p (zs ++ q ∷ []))) [
      | inl e ↦ absurd (ground (arith, h.marked p e, top_running))
      | inr e ↦ e
    ]

    ends_as :
        (fuel result : ℕ) (kind : ReturnKind) (delay : Bool) (next : Next)
        → ((t : State)
            → exec_kind (suc (suc fuel)) p kind 0 result t
              ≡ (prompt_drop_internal (suc (suc fuel)) p delay >> pure next) t)
        → (s' : State) × (and_then
              (stack_entry_end (suc (suc fuel)) p result kind s)
              (land (suc (suc fuel)) p)
            ≡ done (lands (m.entered_at p) next) s')
          × Represents debug return_ip resume_ip depth s' (ended m p delay ys)
    ends_as fuel result kind delay next lets_go =
        let u = w.used p (ground (arith, top_running)) in
        let safe = running-ReturnsSafely debug return_ip resume_ip depth s m p w top_running in
        let t = ended_state s p result kind in
        let (s', landed, act, dead, stacks, same, points) =
          landing_lem s fuel (suc (suc fuel)) p result kind ys delay next top_active safe u.refcount
            lets_go refl in
        let only =
          freed-Only (λ x. has x (p ∷ [])) s t s' (λ x e. same x (ground arith) ∙ ground arith)
            (ended_state-jmp s p result kind) refl refl refl refl refl points in
        (
          s',
          ap (λ r. and_then r (land (suc (suc fuel)) p))
                (stack_entry_end_run s p result kind ys top_active (suc fuel) safe)
              ∙ ap (λ r. and_then r (λ n. pure (lands (s.prompts p).return_point n))) landed
              ∙ ap (λ ret. done (lands ret next) s') u.entered,
          freed-Represents debug return_ip resume_ip depth s m w s' (p ∷ [])
              ((m.stack_of p, delay) ∷ m.released) ys m.captured only points.return_label
              points.resume_label (stacks ∙ ap₂ (λ g l. (g, delay) ∷ l) u.gstack w.released) act
              (omega (arith, w.bounded, ap (length {0}) top))
              (λ x i. (
                ap (has x) top ∙ ground arith,
                ground (arith, ne_of_has p x ys i top_active.distinct.0),
              ))
              (λ q zs c. (
                c,
                λ x i.
                    ground (arith, ne_of_has p x (zs ++ q ∷ []) i (top_apart q zs (w.held q zs c))),
              ))
              (λ x e c. c),
        )

    pub ends_lem :
        (fuel result : ℕ)
        → (s' : State) × (run (suc (suc fuel)) (ends p result) s
            ≡ done (lands (m.entered_at p) (return_value result)) s')
          × Represents debug return_ip resume_ip depth s' (ended m p false ys)
    unfolding stack_entry_return exec_kind
    ends_lem fuel result = ends_as fuel result returned false (return_value result) (λ t. refl)

    pub throws_lem :
        (fuel : ℕ)
        → (s' : State) × (run (suc (suc fuel)) (throws p) s
            ≡ done (lands (m.entered_at p) rethrow) s')
          × Represents debug return_ip resume_ip depth s' (ended m p true ys)
    unfolding stack_entry_exception exec_kind
    throws_lem fuel = ends_as fuel 0 exception true rethrow (λ t. refl)
