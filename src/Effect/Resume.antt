-- ===== src/Effect/Resume.antt =====
-- The resumptions of src/mpeff/mpeff.c: what `mpe_resume`, `mpe_resume_final`, `mpe_resume_tail` and
-- `mpe_resume_release` call on the resumption of mprompt.c below, and when they free their own.
use libmprompt.Base.{
  ℕ, Bool, true, false, not, ◌&&◌, Option, none, some, List, [], ◌∷◌, if◌then◌else◌,
}
use libmprompt.Effect.State.{inplace, scoped_once, once, multi}
use libmprompt.Effect.Perform.{Resume, ResumeEnv}

-- A call: `mpe_free` of the resumption, or a function of mprompt.c on the resumption that it holds.
pub data Call : Type 0 where
  free dup drop : Call
  resume resume_tail : ResumeEnv → Call

-- `mpe_resume_internal`; `none` is a failed assertion of a debug build.
unfoldable pub resume_internal : (debug final : Bool) → Resume → ResumeEnv → Option (List Call)
resume_internal debug final r renv = elim r.kind [
  | inplace ↦
      if debug
      then none
      else if final
      then some (free ∷ resume renv ∷ [])
      else some (dup ∷ resume renv ∷ [])
  | scoped_once ↦ some (resume renv ∷ [])
  | once ↦ if debug && not final then none else some (free ∷ resume renv ∷ [])
  | multi ↦ if final then some (free ∷ resume renv ∷ []) else some (dup ∷ resume renv ∷ [])
]

-- `mpe_resume_unwind`.
unfoldable pub resume_unwind : (debug : Bool) → Resume → Option (List Call)
unfolding resume_internal
resume_unwind debug r =
    resume_internal debug true r (record { local = 0; result = 0; unwind = true })

-- `mpe_resume_final` and `mpe_resume`.
unfoldable pub resume_final : (debug : Bool) → Resume → (local arg : ℕ) → Option (List Call)
unfolding resume_internal
resume_final debug r local arg =
    resume_internal debug true r (record { local = local; result = arg; unwind = false })

unfoldable pub mpe_resume : (debug : Bool) → Resume → (local arg : ℕ) → Option (List Call)
unfolding resume_internal
mpe_resume debug r local arg =
    resume_internal debug false r (record { local = local; result = arg; unwind = false })

-- `mpe_resume_tail` of a resumption that is not in place.
unfoldable pub mpe_resume_tail : Resume → (local arg : ℕ) → List Call
mpe_resume_tail r local arg =
    let renv : ResumeEnv = record { local = local; result = arg; unwind = false } in
    elim r.kind [ scoped_once ↦ resume_tail renv ∷ [] | _ ↦ free ∷ resume_tail renv ∷ [] ]

-- `mpe_resume_release`; `should_unwind` is what `mp_resume_should_unwind` says, and no resumption is
-- NULL.
unfoldable pub resume_release : (debug should_unwind : Bool) → Option Resume → Option (List Call)
unfolding resume_unwind
resume_release debug should_unwind none = some []
resume_release debug should_unwind (some r) = elim r.kind [
  | once ↦ resume_unwind debug r
  | multi ↦ if should_unwind then resume_unwind debug r else some (free ∷ drop ∷ [])
  | _ ↦
      if debug
      then none
      else if should_unwind
      then resume_unwind debug r
      else some (free ∷ drop ∷ [])
]
