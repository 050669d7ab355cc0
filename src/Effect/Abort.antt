-- ===== src/Effect/Abort.antt =====
-- An operation that aborts, through both parts of the program: `mpe_perform_yield_to_abort` and
-- `mpe_perform_op_clause_abort` of src/mpeff/mpeff.c, over the yield and the drop of src/mprompt/mprompt.c.
use libmprompt.Base.{ℕ, Option, none, some}
use libmprompt.Prompt.Switch.{
  Jump, to_return, to_resume, enter_stack, Next, call_yielded, return_value, rethrow, yield_to,
  exec_yield_fun,
}
use libmprompt.Prompt.Multi.{Store, lift}
use libmprompt.Prompt.Dispatch.{mp_resume_drop}
use libmprompt.Effect.State.{State}
use libmprompt.Effect.Perform.{Outcome, value, yields, aborts, perform_yield_to_abort}
pub mod Frees
mod Tests

pub record World : Type 0 where
  pub effects : State
  pub store : Store

-- The call of an operation function by an abort: `resume` is NULL.
pub record Call : Type 0 where
  pub opfun : ℕ
  pub resume : ℕ
  pub local : ℕ
  pub arg : ℕ

-- `mpe_perform_op_clause_abort`, up to its call; the fields of the environment are copied first.
unfoldable pub op_clause_abort : (fuel mpr opfun local arg : ℕ) → Store → Option (Call × Store)
op_clause_abort fuel mpr opfun local arg s = elim (mp_resume_drop fuel mpr s) [
  | none ↦ none
  | some r ↦ some (record { opfun = opfun; resume = 0; local = local; arg = arg }, r.1)
]

-- From the landing of the yield on: it calls the clause with the prompt as the resumption.
abbrev pub clause_called :
    (fuel opfun local arg : ℕ) → Option (Next × Store) → Option (Call × Store)
clause_called fuel opfun local arg none = none
clause_called fuel opfun local arg (some (call_yielded fun p env, s)) =
    op_clause_abort fuel p opfun local arg s
clause_called fuel opfun local arg (some (return_value x, s)) = none
clause_called fuel opfun local arg (some (rethrow, s)) = none

abbrev pub landed : (fuel p opfun local arg : ℕ) → Option (Jump × Store) → Option (Call × Store)
landed fuel p opfun local arg none = none
landed fuel p opfun local arg (some (to_return ret, s)) =
    clause_called fuel opfun local arg (lift (exec_yield_fun fuel ret p s.base) s.mresumes)
landed fuel p opfun local arg (some (to_resume res, s)) = none
landed fuel p opfun local arg (some (enter_stack q env, s)) = none

-- The yield of an abort and what it leads to; `clause` is the address of `mpe_perform_op_clause_abort`,
-- `env` that of its environment, and `res` that of the resume point of the yield.
abbrev pub yielded_abort :
    (fuel clause env res : ℕ) → Option (Outcome × State) → Store → Option (Call × World)
yielded_abort fuel clause env res none s = none
yielded_abort fuel clause env res (some (value x, e)) s = none
yielded_abort fuel clause env res (some (yields kind p opfun local arg, e)) s = none
yielded_abort fuel clause env res (some (aborts p opfun local arg, e)) s =
    elim (landed fuel p opfun local arg (lift (yield_to fuel p clause env res s.base) s.mresumes)) [
      | none ↦ none
      | some r ↦ some (r.0, record { effects = e; store = r.1 })
    ]

-- `mpe_perform_yield_to_abort`, up to the call of the operation function.
unfoldable pub abort_to : (fuel h opfun arg clause env res : ℕ) → World → Option (Call × World)
abort_to fuel h opfun arg clause env res w =
    yielded_abort fuel clause env res (perform_yield_to_abort h opfun arg w.effects) w.store
