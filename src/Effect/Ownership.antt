-- ===== src/Effect/Ownership.antt =====
-- The life of a resumption that is allocated: it owns one reference to the resumption below it, until the
-- program resumes it for the last time or releases it.
use libmprompt.Base.{
  ℕ, ◌+◌, ◌-◌, ◌≡◌, refl, ◌⊎◌, inl, inr, ◌||◌, ◌==◌, if◌then◌else◌, Bool, true, false, Option, none,
  some, List, [], ◌∷◌, arith,
}
use libmprompt.Effect.State.{ResumptionKind, once, multi}
use libmprompt.Effect.Perform.{Resume, ResumeEnv}
use libmprompt.Effect.Resume.{
  Call, free, dup, drop, resume, resume_tail, resume_internal, resume_unwind, resume_final,
  mpe_resume, mpe_resume_tail, resume_release,
}

-- The account of a resumption: whether it is allocated, how many references to the resumption below it
-- owns, and the resumes so far, the latest first.
pub record Account : Type 0 where
  pub allocated : Bool
  pub references : ℕ
  pub resumes : List Call

-- What a call does to it. There is no result for a second `mpe_free`, or for the use of a resumption
-- below to which no reference is left; a resume consumes one.
abbrev pub called : Call → Account → Option Account
called free a = if a.allocated then some (record a { allocated = false }) else none
called dup a = if a.references == 0 then none else some (record a { references = a.references + 1 })
called drop a =
    if a.references == 0 then none else some (record a { references = a.references - 1 })
called (resume e) a =
    if a.references == 0
    then none
    else some (record a { references = a.references - 1; resumes = resume e ∷ a.resumes })
called (resume_tail e) a =
    if a.references == 0
    then none
    else some (record a { references = a.references - 1; resumes = resume_tail e ∷ a.resumes })

abbrev pub all_called : List Call → Account → Option Account
all_called [] a = some a
all_called (c ∷ cs) a = elim (called c a) [ none ↦ none | some a' ↦ all_called cs a' ]

-- A function of mpeff.c on the resumption, which reads it first; there is no result for a failed
-- assertion.
abbrev pub used : Option (List Call) → Account → Option Account
used none a = none
used (some cs) a = if a.allocated then all_called cs a else none

-- How the program ends the life: with `mpe_resume_final`, `mpe_resume_tail`, or `mpe_resume_release`, for
-- what `mp_resume_should_unwind` says.
pub data Ending : Type 0 where
  last_resume tail_resume : (local arg : ℕ) → Ending
  given_up : (should_unwind : Bool) → Ending

abbrev pub ends : (debug : Bool) → Resume → Ending → Option (List Call)
ends debug r (last_resume local arg) = resume_final debug r local arg
ends debug r (tail_resume local arg) = some (mpe_resume_tail r local arg)
ends debug r (given_up should_unwind) = resume_release debug should_unwind (some r)

-- A life: calls of `mpe_resume`, each with a local state and a result, and the end.
abbrev pub life : (debug : Bool) → Resume → List (ℕ × ℕ) → Ending → Account → Option Account
life debug r [] e a = used (ends debug r e) a
life debug r ((local, arg) ∷ xs) e a = elim (used (mpe_resume debug r local arg) a) [
  | none ↦ none
  | some a' ↦ life debug r xs e a'
]

-- The resumption as it is while the program has it, and when it has ended.
abbrev pub owned : List Call → Account
owned cs = record { allocated = true; references = 1; resumes = cs }

abbrev pub gone : List Call → Account
gone cs = record { allocated = false; references = 0; resumes = cs }

-- The resumes that a life asks for, on top of some others.
abbrev pub env : (local arg : ℕ) → ResumeEnv
env local arg = record { local = local; result = arg; unwind = false }

abbrev pub to_unwind : ResumeEnv
to_unwind = record { local = 0; result = 0; unwind = true }

abbrev pub asked : List (ℕ × ℕ) → List Call → List Call
asked [] cs = cs
asked ((local, arg) ∷ xs) cs = asked xs (resume (env local arg) ∷ cs)

abbrev pub is_once : ResumptionKind → Bool
is_once once = true
is_once _ = false

-- The resume at the end, if there is one: a release resumes a once resumption, and one that is to unwind.
abbrev pub at_end : ResumptionKind → Ending → List Call → List Call
at_end k (last_resume local arg) cs = resume (env local arg) ∷ cs
at_end k (tail_resume local arg) cs = resume_tail (env local arg) ∷ cs
at_end k (given_up should_unwind) cs =
    if is_once k || should_unwind then resume to_unwind ∷ cs else cs

-- The kinds that `mpe_malloc_tp` allocates.
abbrev pub IsAllocated : ResumptionKind → Type 0
IsAllocated k = (k ≡ once) ⊎ (k ≡ multi)

last_resume_gone :
    (debug : Bool) (r : Resume) (renv : ResumeEnv) (cs : List Call)
    → IsAllocated r.kind
    → used (resume_internal debug true r renv) (owned cs) ≡ some (gone (resume renv ∷ cs))
unfolding resume_internal
last_resume_gone debug r renv cs (inl k) = rw k (ground arith)
last_resume_gone debug r renv cs (inr k) = rw k refl

ends_gone :
    (debug : Bool) (r : Resume) (e : Ending) (cs : List Call)
    → IsAllocated r.kind
    → used (ends debug r e) (owned cs) ≡ some (gone (at_end r.kind e cs))
unfolding resume_unwind resume_final mpe_resume_tail resume_release
ends_gone debug r (last_resume local arg) cs a = last_resume_gone debug r (env local arg) cs a
ends_gone debug r (tail_resume local arg) cs (inl k) = rw k refl
ends_gone debug r (tail_resume local arg) cs (inr k) = rw k refl
ends_gone debug r (given_up u) cs (inl k) = rw k (last_resume_gone debug r to_unwind cs (inl k))
ends_gone debug r (given_up true) cs (inr k) = rw k (last_resume_gone debug r to_unwind cs (inr k))
ends_gone debug r (given_up false) cs (inr k) = rw k refl

mpe_resume-owned :
    (debug : Bool) (r : Resume) (local arg : ℕ) (cs : List Call)
    → r.kind ≡ multi
    → used (mpe_resume debug r local arg) (owned cs) ≡ some (owned (resume (env local arg) ∷ cs))
unfolding resume_internal mpe_resume
mpe_resume-owned debug r local arg cs k = rw k refl

-- The life of a resumption that is allocated, in any build: the program resumes it any number of times, a
-- once resumption not at all, and then ends with a last resume, a tail resume or a release. No assertion
-- fails, the resumption is freed once, at the end, and is not read after that, and the references to the
-- resumption below are used up and no more. The resumption below is resumed with what each resume asks
-- for, in their order, and by a release to unwind, if the resumption is a once one or the stack is to be
-- unwound.
pub resume_owned :
    (debug : Bool) (r : Resume) (xs : List (ℕ × ℕ)) (e : Ending) (cs : List Call)
    → IsAllocated r.kind
    → (r.kind ≡ once → xs ≡ [])
    → life debug r xs e (owned cs) ≡ some (gone (at_end r.kind e (asked xs cs)))
resume_owned debug r [] e cs a h = ends_gone debug r e cs a
resume_owned debug r ((local, arg) ∷ xs) e cs (inl k) h = absurd (cc (h k))
resume_owned debug r ((local, arg) ∷ xs) e cs (inr k) h =
    rw (life, mpe_resume-owned debug r local arg cs k)
      (resume_owned debug r xs e (resume (env local arg) ∷ cs) (inr k) (λ o. cc (o, k)))
