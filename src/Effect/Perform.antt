-- ===== src/Effect/Perform.antt =====
-- `mpe_perform` of src/mpeff/mpeff.c, masks, finally frames and handler frames. The program's own
-- functions are called through `Calls`. `mp_yield` does not return before the resume, so the function
-- that calls it is two functions: up to the yield, and from the resume on.
use libmprompt.Base.{ℕ, Bool, not, none, some, ◌==◌, if◌then◌else◌}
use libmprompt.Effect.State.{
  Frame, frame_under, frame_mask, frame_finally, op_abort, op_never, op_tail_noop, op_tail,
  op_scoped_once, op_once, Operation, ResumptionKind, inplace, scoped_once, once, multi, M, pure,
  ◌>>=◌, ◌>>◌, get, set_top, store, assert,
}
use libmprompt.Effect.Find.{mpe_find}

-- `mpe_resume_t`: `target` is the frame whose `local` an in-place resumption sets, or a `mp_resume_t`.
pub record Resume : Type 0 where
  pub kind : ResumptionKind
  pub target : ℕ

-- What a call of an operation function, an action, a result function or a release function does.
pub record Calls : Type 0 where
  pub opfun : (fun : ℕ) → Resume → (local arg : ℕ) → M ℕ
  pub action : (fun arg : ℕ) → M ℕ
  pub resultfun : (fun local arg : ℕ) → M ℕ
  pub releasefun : (fun local : ℕ) → M (Unit {0})

-- `mpe_resume_env_t`.
pub record ResumeEnv : Type 0 where
  pub local : ℕ
  pub result : ℕ
  pub unwind : Bool

-- What an operation comes to: a value, or a yield to a prompt with what the operation clause is given
-- there. A clause that aborts gets no resumption.
pub data Outcome : Type 0 where
  value : ℕ → Outcome
  yields : ResumptionKind → (prompt opfun local arg : ℕ) → Outcome
  aborts : (prompt opfun local arg : ℕ) → Outcome

-- The function of `mpe_op_unwind`: the address of `mpe_handle_op_unwind`.
abbrev pub op_unwind : ℕ
op_unwind = 4

-- `mpe_with_frame`, in C: `f` is the address of the frame, and `r` its fields.
unfoldable pub with_frame : {A : Type 0} → (f : ℕ) → Frame → M A → M A
with_frame f r body = do
  s ← get
  store f (record r { parent = s.frame_top })
  set_top f
  x ← body
  t ← get
  set_top (t.frames f).parent
  pure x

-- `mpe_perform_yield_to`, up to the yield. The current top is returned with it.
unfoldable pub perform_yield_to : ResumptionKind → (h opfun arg : ℕ) → M (ℕ × Outcome)
perform_yield_to kind h opfun arg = do
  s ← get
  set_top (s.frames h).parent
  pure (s.frame_top, yields kind (s.frames h).prompt opfun (s.frames h).local arg)

-- `mpe_perform_yield_to_abort`.
unfoldable pub perform_yield_to_abort : (h opfun arg : ℕ) → M Outcome
perform_yield_to_abort h opfun arg = do
  s ← get
  set_top (s.frames h).parent
  pure (aborts (s.frames h).prompt opfun (s.frames h).local arg)

-- What `mpe_perform_yield_to` does to the frames when it is resumed.
abbrev pub relink : (h resume_top : ℕ) → ResumeEnv → M (Unit {0})
relink h resume_top renv = do
  s ← get
  store h (record (s.frames h) { local = renv.local })
  assert (not (s.frame_top == h))
  t ← get
  store h (record (t.frames h) { parent = s.frame_top })
  set_top resume_top

-- `mpe_perform_yield_to`, from the resume on.
unfoldable pub perform_resumed : (h resume_top : ℕ) → ResumeEnv → M Outcome
unfolding perform_yield_to_abort
perform_resumed h resume_top renv = do
  relink h resume_top renv
  if renv.unwind then perform_yield_to_abort h op_unwind renv.result else pure (value renv.result)

-- `mpe_perform_under`, with its frame at `f`.
unfoldable pub perform_under : Calls → (f h opfun arg : ℕ) → M ℕ
unfolding with_frame
perform_under calls f h opfun arg = do
  s ← get
  with_frame f (record (s.frames f) { effect = frame_under; under = (s.frames h).effect })
      (calls.opfun opfun (record { kind = inplace; target = h }) (s.frames h).local arg)

-- `mpe_perform_at`; a yield is returned with the top to restore.
unfoldable pub perform_at : Calls → (f h : ℕ) → Operation → (arg : ℕ) → M (ℕ × Outcome)
unfolding perform_under
perform_at calls f h op arg = do
  s ← get
  elim op.opkind [
    | op_tail_noop ↦ do
      x ← calls.opfun op.opfun (record { kind = inplace; target = h }) (s.frames h).local arg
      pure (0, value x)
    | op_tail ↦ do x ← perform_under calls f h op.opfun arg; pure (0, value x)
    | op_scoped_once ↦ perform_yield_to scoped_once h op.opfun arg
    | op_once ↦ perform_yield_to once h op.opfun arg
    | op_never ↦ do x ← perform_yield_to_abort h op.opfun arg; pure (0, x)
    | op_abort ↦ do x ← perform_yield_to_abort h op.opfun arg; pure (0, x)
    | _ ↦ perform_yield_to multi h op.opfun arg
  ]

-- `mpe_perform`, for the operation number `opidx` of the effect `opeff`. An operation without a
-- handler gives NULL, after a message.
unfoldable pub mpe_perform : Calls → (fuel f opeff opidx arg : ℕ) → M (ℕ × Outcome)
unfolding perform_at
mpe_perform calls fuel f opeff opidx arg s = elim (mpe_find fuel opeff s) [
  | none ↦ none
  | some h ↦
      if h == 0
      then some ((0, value 0), s)
      else perform_at calls f h ((s.hdefs (s.frames h).hdef).operations opidx) arg s
]

-- `mpe_mask`.
unfoldable pub mpe_mask : Calls → (f eff from fun arg : ℕ) → M ℕ
unfolding with_frame
mpe_mask calls f eff from fun arg = do
  s ← get
  with_frame f (record (s.frames f) { effect = frame_mask; mask = eff; from = from })
      (calls.action fun arg)

-- `mpe_finally`, in C.
unfoldable pub mpe_finally : Calls → (f local finally_fun fun arg : ℕ) → M ℕ
unfolding with_frame
mpe_finally calls f local finally_fun fun arg = do
  s ← get
  x ←
      with_frame f
        (record (s.frames f) { effect = frame_finally; fun = finally_fun; local = local })
        (calls.action fun arg)
  t ← get
  calls.releasefun (t.frames f).fun (t.frames f).local
  pure x

-- `mpe_handle_start`, in C, on the stack of the new prompt.
unfoldable pub handle_start : Calls → (f prompt hdef local body arg : ℕ) → M ℕ
unfolding with_frame
handle_start calls f prompt hdef local body arg = do
  s ← get
  x ←
      with_frame f
        (record (s.frames f) {
          prompt = prompt;
          hdef = hdef;
          local = local;
          effect = (s.hdefs hdef).effect;
        })
        (calls.action body arg)
  t ← get
  if not ((t.hdefs (t.frames f).hdef).resultfun == 0)
      then calls.resultfun (t.hdefs (t.frames f).hdef).resultfun (t.frames f).local x
      else pure x

-- `mpe_resume_tail` of an in-place resumption.
unfoldable pub resume_in_place : Resume → (local arg : ℕ) → M ℕ
resume_in_place r local arg = do
  s ← get
  store r.target (record (s.frames r.target) { local = local })
  pure arg

-- `mpe_perform_op_clause`: the resumption that the clause is called with, at the prompt. `multi_of` is
-- what `mp_resume_multi` gives.
unfoldable pub op_clause : (multi_of : ℕ → ℕ) → ResumptionKind → (mpr : ℕ) → Resume
op_clause multi_of multi mpr = record { kind = multi; target = multi_of mpr }
op_clause multi_of kind mpr = record { kind = kind; target = mpr }
