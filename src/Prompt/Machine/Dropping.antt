-- ===== src/Prompt/Machine/Dropping.antt =====
-- The drop of a suspended prompt refines the step of the abstract machine.
use libmprompt.Base.{
  ℕ, suc, ◌<◌, ◌≡◌, ◌≢◌, refl, ◌∙◌, inl, inr, Bool, true, false, List, [], ◌∷◌, ◌++◌, has, ◌==◌,
  arith, ==_refl, Bool-cases, none, some, has-append, write, map,
}
use mathlib.Core.Path.{ap₂}
use libmprompt.Prompt.State.{State, done}
use libmprompt.Prompt.Ops.{prompt_drop_internal}
use libmprompt.Prompt.Drop.{prompt_drop_single, prompt_drop_last, Freed-IsActive}
use libmprompt.Prompt.Free.{Freed, stacks_of, release_all}
use libmprompt.Prompt.Machine.{Machine, free, drops, goes_on, dropped, run}
use libmprompt.Prompt.Machine.Represents.{Represents}
use libmprompt.Prompt.Machine.Ending.{freed-Only, freed-Represents}

-- A suspended prompt is dropped, with what it has captured.
module _ (debug : Bool) (return_ip resume_ip depth : ℕ) (s : State) (m : Machine) (p : ℕ)
    (xs : List ℕ) (w : Represents debug return_ip resume_ip depth s m)
    (cap : m.captured p ≡ some xs) where
  held_apart :
      (q x : ℕ) (zs : List ℕ)
      → (p == q) ≡ false
      → m.captured q ≡ some zs
      → has x (zs ++ q ∷ []) ≡ true
      → has x (xs ++ p ∷ []) ≡ false
  held_apart q x zs ne c i = elim (Bool-cases (has x (xs ++ p ∷ []))) [
    | inl e ↦ absurd (ground (arith, (w.held q zs c).marked x i, (w.held p xs cap).marked x e))
    | inr e ↦ e
  ]

  held_inactive : (x : ℕ) → has x m.active ≡ true → has x (xs ++ p ∷ []) ≡ false
  held_inactive x i = elim (Bool-cases (has x (xs ++ p ∷ []))) [
    | inl e ↦ absurd (ground (arith, w.marked x i, (w.held p xs cap).marked x e))
    | inr e ↦ e
  ]

  pub p_used : m.place p ≢ free
  p_used =
      ground
        (arith, (w.held p xs cap).marked p (ground (arith, has-append p xs (p ∷ []), ==_refl p)))

  stacks_of-held :
      (zs : List ℕ)
      → ((x : ℕ) → has x zs ≡ true → m.place x ≢ free)
      → stacks_of s zs ≡ map m.stack_of zs
  stacks_of-held [] u = refl
  stacks_of-held (z ∷ zs) u =
      rw
        (
          (w.used z (u z (ground (arith, ==_refl z)))).gstack,
          stacks_of-held zs (λ x i. u x (ground arith)),
        )
        refl

  -- Any such drop, once it has run.
  dropped_as :
      (fuel : ℕ) (s' : State)
      → prompt_drop_internal fuel p false s ≡ done tt s'
      → Freed false (xs ++ p ∷ []) s s'
      → (t : State) × (run fuel (drops p) s ≡ done goes_on t)
        × Represents debug return_ip resume_ip depth t (dropped m p xs)
  dropped_as fuel s' runs freed =
      let all = xs ++ p ∷ [] in
      let g = freed.same_points in
      let only =
        freed-Only (λ x. has x all) s s s' freed.others (λ r. refl) refl refl refl refl refl g in
      (
        s',
        rw runs refl,
        freed-Represents debug return_ip resume_ip depth s m w s' all
            (release_all false (map m.stack_of all) m.released) m.active (write m.captured p none)
            only g.return_label g.resume_label
            (freed.stacks
              ∙ ap₂ (release_all false)
                  (stacks_of-held all (λ x i. ground (arith, (w.held p xs cap).marked x i)))
                  w.released)
            (Freed-IsActive s s' all m.active false freed held_inactive w.active) w.bounded
            (λ x i. (i, held_inactive x i))
            (λ q zs c.
              let c' : m.captured q ≡ some zs = ground arith in
              (c', λ x i. held_apart q x zs (ground arith) c' i))
            (λ x e c. ground (arith, has-append x xs (p ∷ []))),
      )

  -- In a release build.
  pub drops_held_lem :
      (fuel : ℕ)
      → debug ≡ false
      → depth < fuel
      → (t : State) × (run fuel (drops p) s ≡ done goes_on t)
        × Represents debug return_ip resume_ip depth t (dropped m p xs)
  drops_held_lem fuel release f =
      let h = w.held p xs cap in
      let (s', runs, freed) =
        prompt_drop_last s fuel p xs false (w.same_debug ∙ release) h.chain
          (w.used p p_used).refcount (omega (arith, w.held_short p xs cap)) in
      dropped_as fuel s' runs freed

-- A prompt that has captured no other, in any build.
pub drops_lone_lem :
    (debug : Bool) (return_ip resume_ip depth : ℕ) (s : State) (m : Machine) (p fuel : ℕ)
    → Represents debug return_ip resume_ip depth s m
    → m.captured p ≡ some []
    → (t : State) × (run (suc (suc fuel)) (drops p) s ≡ done goes_on t)
      × Represents debug return_ip resume_ip depth t (dropped m p [])
drops_lone_lem debug return_ip resume_ip depth s m p fuel w cap =
    let u = w.used p (p_used debug return_ip resume_ip depth s m p [] w cap) in
    let (s', runs, stacks, dead, top, same, points) =
      prompt_drop_single s fuel p false (w.held p [] cap).chain u.refcount in
    dropped_as debug return_ip resume_ip depth s m p [] w cap (suc (suc fuel)) s' runs (record {
      stacks = stacks;
      gone = (dead, tt);
      others = λ x o. same x (ground arith);
      same_top = top;
      same_points = points;
    })
