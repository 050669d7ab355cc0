-- ===== src/Prompt/Machine/Misuse.antt =====
-- A yield to a prompt that is not on the current chain, and a resume of one that is: what the assertions
-- of src/mprompt/mprompt.c stop.
use libmprompt.Base.{
  ℕ, zero, suc, ◌<◌, ◌≡◌, refl, inl, inr, true, false, List, [], ◌∷◌, has, ◌==◌, length, All, arith,
  Bool-cases, if◌then◌else◌,
}
use libmprompt.Base.Chain.{Chain}
use libmprompt.Prompt.State.{State, done, fault, check-fault}
use libmprompt.Prompt.Ops.{prompt_parent, is_ancestor_from, prompt_is_ancestor, prompt_link}
use libmprompt.Prompt.Switch.{yield_to, prompt_resume}
use libmprompt.Prompt.Dispatch.{resume_once}
use libmprompt.Prompt.Chain.{parent_of, ActiveAt, IsActive}
use libmprompt.Prompt.Link.{prompt_parent_of}
use libmprompt.Prompt.Machine.{Machine, Action, yields, resumes, run}
use libmprompt.Prompt.Machine.Represents.{Represents}

-- The walk from `q` ends at NULL, when `p` is not on the chain.
is_ancestor_from-false :
    (s : State) (p q a : ℕ) (xs : List ℕ) (fuel : ℕ)
    → prompt_parent q s ≡ done a s
    → Chain (parent_of s) a xs 0
    → All (ActiveAt s) xs
    → has p xs ≡ false
    → length xs < fuel
    → is_ancestor_from fuel p q s ≡ done false s
unfolding is_ancestor_from
is_ancestor_from-false s p q a xs zero e c h out l = absurd (omega arith)
is_ancestor_from-false s p q a [] (suc fuel) e c h out l = rw e (ground arith)
is_ancestor_from-false s p q a (x ∷ xs) (suc fuel) e c h out l = rw e (
    ground (
      arith,
      is_ancestor_from-false s p x (parent_of s x) xs fuel (prompt_parent_of s x h.0) c.1 h.1
          (ground arith) (omega arith),
    ))

prompt_is_ancestor-false :
    (s : State) (p : ℕ) (xs : List ℕ) (fuel : ℕ)
    → IsActive s xs
    → has p xs ≡ false
    → length xs < fuel
    → prompt_is_ancestor fuel p s ≡ done false s
unfolding prompt_is_ancestor prompt_parent
prompt_is_ancestor-false s p xs fuel v out l =
    is_ancestor_from-false s p 0 s.prompt_top xs fuel refl v.chain v.each out l

yield_outside :
    (s : State) (fuel p fun arg res : ℕ) (xs : List ℕ)
    → s.debug ≡ true
    → IsActive s xs
    → has p xs ≡ false
    → length xs < fuel
    → yield_to fuel p fun arg res s ≡ fault
unfolding yield_to
yield_outside s fuel p fun arg res xs d v out l =
    rw
      (
        check-fault (prompt_is_ancestor fuel p) s d (prompt_is_ancestor-false s p xs fuel v out l),
        yield_to,
      )
      refl

resume_active :
    (s : State) (p value ret : ℕ)
    → s.debug ≡ true
    → ActiveAt s p
    → resume_once p value ret s ≡ fault
unfolding resume_once prompt_resume prompt_link
resume_active s p value ret d at = ground arith

All-has : (s : State) (p : ℕ) (xs : List ℕ) → All (ActiveAt s) xs → has p xs ≡ true → ActiveAt s p
All-has s p [] h i = absurd (ground arith)
All-has s p (x ∷ xs) h i = elim (Bool-cases (x == p)) [
  | inl e ↦ ground arith
  | inr e ↦ All-has s p xs h.1 (ground arith)
]

-- A yield to a prompt that is not on the current chain, or else a resume of a prompt that is on it.
abbrev pub misuse : Machine → (p fun arg res value ret : ℕ) → Action
misuse m p fun arg res value ret =
    if has p m.active then resumes p value ret else yields p fun arg res

-- In any state of a debug build that the abstract machine describes, a yield to a prompt that is not on the
-- current chain is stopped by an assertion, and so is the resume of a prompt that is on it, as by a
-- second resume of a once resumption.
pub misuse_stops :
    (return_ip resume_ip depth fuel : ℕ) (s : State) (m : Machine) (p fun arg res value ret : ℕ)
    → Represents true return_ip resume_ip depth s m
    → depth < fuel
    → run fuel (misuse m p fun arg res value ret) s ≡ fault
misuse_stops return_ip resume_ip depth fuel s m p fun arg res value ret w f =
    let d = w.same_debug in
    elim (Bool-cases (has p m.active)) [
      | inl e ↦ rw (e, resume_active s p value ret d (All-has s p m.active w.active.each e)) refl
      | inr e ↦
          rw
            (e, yield_outside s fuel p fun arg res m.active d w.active e (omega (arith, w.bounded)))
            refl
    ]
