-- ===== src/Effect/Cpp.antt =====
-- src/mpeff/mpeff.c, built as C++: the frames are left by a destructor, and an exception unwinds the
-- stack to a handler. `W` is all else that the program's own functions change.
pub mod Unwind
pub mod Release
pub mod Finally
mod Tests
use libmprompt.Base.{ℕ, Bool, not, ◌&&◌, Option, none, some, ◌==◌, if◌then◌else◌, write}
use libmprompt.Effect.State.{
  State, Frame, frame_under, frame_mask, frame_finally, op_abort, op_never, op_tail_noop, op_tail,
  op_scoped_once, op_once, Operation, scoped_once, once, multi, inplace, M,
}
use libmprompt.Effect.Find.{mpe_find}
use libmprompt.Effect.Perform.{
  Resume, ResumeEnv, Outcome, value, op_unwind, perform_yield_to, perform_yield_to_abort, relink,
}

-- An exception: `mpe_unwind_exception`, or one of the program's own.
pub data Exn : Type 0 where
  unwind : (target opfun arg : ℕ) → Exn
  other : (exn : ℕ) → Exn

-- How code ends: it returns, it throws, or an assertion of a debug build fails.
pub data Ran (W A : Type 0) : Type 0 where
  returned : A → State → W → Ran W A
  thrown : Exn → State → W → Ran W A
  crashed : Ran W A

abbrev pub Code : Type 0 → Type 0 → Type 0
Code W A = State → W → Ran W A

abbrev pub and_then : {W A B : Type 0} → Ran W A → (A → Code W B) → Ran W B
and_then (returned x s w) k = k x s w
and_then (thrown e s w) k = thrown e s w
and_then crashed k = crashed

infixl 5 ◌>>=◌
abbrev pub ◌>>=◌ : {W A B : Type 0} → Code W A → (A → Code W B) → Code W B
◌>>=◌ m k s w = and_then (m s w) k

abbrev pub pure : {W A : Type 0} → A → Code W A
pure x s w = returned x s w

abbrev pub throw : {W A : Type 0} → Exn → Code W A
throw e s w = thrown e s w

-- `try { .. } catch`, for what the handler does with an exception.
abbrev pub catching : {W A : Type 0} → Ran W A → (Exn → Code W A) → Ran W A
catching (returned x s w) k = returned x s w
catching (thrown e s w) k = k e s w
catching crashed k = crashed

-- Code that throws nothing.
abbrev pub raised : {W A : Type 0} → Option (A × State) → W → Ran W A
raised none w = crashed
raised (some (x, s)) w = returned x s w

abbrev pub lift : {W A : Type 0} → M A → Code W A
lift m s w = raised (m s) w

-- The program's own functions; an operation function gets NULL for a resumption if it is not to resume.
pub record Calls (W : Type 0) : Type 0 where
  pub opfun : (fun : ℕ) → Option Resume → (local arg : ℕ) → Code W ℕ
  pub action : (fun arg : ℕ) → Code W ℕ
  pub resultfun : (fun local arg : ℕ) → Code W ℕ
  pub releasefun : (fun local : ℕ) → Code W (Unit {0})

-- `mpe_handle_op_unwind`, which asserts that there is no resumption.
unfoldable pub handle_op_unwind : {W : Type 0} → Option Resume → (local arg : ℕ) → Code W ℕ
handle_op_unwind none local arg s w = returned arg s w
handle_op_unwind (some r) local arg s w = if s.debug then crashed else returned arg s w

-- The program's own functions, with `mpe_handle_op_unwind` at its address.
unfoldable pub with_unwind : {W : Type 0} → Calls W → Calls W
unfolding handle_op_unwind
with_unwind calls = record calls {
  opfun = λ fun r local arg.
      if fun == op_unwind then handle_op_unwind r local arg else calls.opfun fun r local arg;
}

-- The destructor of `mpe_raii_with_frame_t`.
unfoldable pub leave_frame : {W A : Type 0} → (f : ℕ) → Ran W A → Ran W A
leave_frame f (returned x s w) =
    if s.debug && not (s.frame_top == f)
    then crashed
    else returned x (record s { frame_top = (s.frames f).parent }) w
leave_frame f (thrown e s w) =
    if s.debug && not (s.frame_top == f)
    then crashed
    else thrown e (record s { frame_top = (s.frames f).parent }) w
leave_frame f crashed = crashed

-- `mpe_with_frame`: the constructor of `mpe_raii_with_frame_t`, the body, and the destructor.
unfoldable pub with_frame : {W A : Type 0} → (f : ℕ) → Frame → Code W A → Code W A
unfolding leave_frame
with_frame f r body s w =
    let s' = record s {
      frames = write s.frames f (record r { parent = s.frame_top });
      frame_top = f;
    } in
    if s.debug && (s.frame_top == f) then crashed else leave_frame f (body s' w)

-- `mpe_unwind_to`.
unfoldable pub unwind_to : {W A : Type 0} → (target opfun arg : ℕ) → Code W A
unwind_to target opfun arg = throw (unwind target opfun arg)

-- `mpe_perform_under`.
unfoldable pub perform_under : {W : Type 0} → Calls W → (f h opfun arg : ℕ) → Code W ℕ
unfolding with_frame
perform_under calls f h opfun arg s w =
    with_frame f (record (s.frames f) { effect = frame_under; under = (s.frames h).effect })
      (calls.opfun opfun (some (record { kind = inplace; target = h })) (s.frames h).local arg) s w

-- `mpe_perform_at`; a yield is returned with the top to restore.
unfoldable pub perform_at :
    {W : Type 0} → Calls W → (f h : ℕ) → Operation → (arg : ℕ) → Code W (ℕ × Outcome)
unfolding perform_under unwind_to perform_yield_to perform_yield_to_abort
perform_at calls f h op arg s w = elim op.opkind [
  | op_tail_noop ↦
      and_then
        (calls.opfun op.opfun (some (record { kind = inplace; target = h })) (s.frames h).local arg
          s w)
        (λ x. pure (0, value x))
  | op_tail ↦ and_then (perform_under calls f h op.opfun arg s w) (λ x. pure (0, value x))
  | op_scoped_once ↦ lift (perform_yield_to scoped_once h op.opfun arg) s w
  | op_once ↦ lift (perform_yield_to once h op.opfun arg) s w
  | op_never ↦ unwind_to h op.opfun arg s w
  | op_abort ↦ and_then (lift (perform_yield_to_abort h op.opfun arg) s w) (λ x. pure (0, x))
  | _ ↦ lift (perform_yield_to multi h op.opfun arg) s w
]

-- `mpe_perform_yield_to`, from the resume on.
unfoldable pub perform_resumed : {W : Type 0} → (h resume_top : ℕ) → ResumeEnv → Code W ℕ
unfolding unwind_to
perform_resumed h resume_top renv s w =
    and_then (lift (relink h resume_top renv) s w)
      (λ u. if renv.unwind then unwind_to h op_unwind renv.result else pure renv.result)

-- `mpe_perform`, for the operation number `opidx` of the effect `opeff`.
unfoldable pub mpe_perform :
    {W : Type 0} → Calls W → (fuel f opeff opidx arg : ℕ) → Code W (ℕ × Outcome)
unfolding perform_at
mpe_perform calls fuel f opeff opidx arg s w = elim (mpe_find fuel opeff s) [
  | none ↦ crashed
  | some h ↦
      if h == 0
      then returned (0, value 0) s w
      else perform_at calls f h ((s.hdefs (s.frames h).hdef).operations opidx) arg s w
]

-- `mpe_mask`, around any code.
unfoldable pub mask_around : {W : Type 0} → (f eff from : ℕ) → Code W ℕ → Code W ℕ
unfolding with_frame
mask_around f eff from body s w =
    with_frame f (record (s.frames f) { effect = frame_mask; mask = eff; from = from }) body s w

unfoldable pub mpe_mask : {W : Type 0} → Calls W → (f eff from fun arg : ℕ) → Code W ℕ
unfolding mask_around
mpe_mask calls f eff from fun arg = mask_around f eff from (calls.action fun arg)

-- The call of the function in a finally frame.
abbrev pub release : {W : Type 0} → Calls W → (f : ℕ) → Code W (Unit {0})
release calls f s w = calls.releasefun (s.frames f).fun (s.frames f).local s w

-- `mpe_finally`, around any code.
unfoldable pub finally_around :
    {W : Type 0} → Calls W → (f local finally_fun : ℕ) → Code W ℕ → Code W ℕ
unfolding with_frame
finally_around calls f local finally_fun body s w =
    let r = record (s.frames f) { effect = frame_finally; fun = finally_fun; local = local } in
    catching (and_then (with_frame f r body s w) (λ x. release calls f >>= λ u. pure x))
      (λ e. release calls f >>= λ u. throw e)

unfoldable pub mpe_finally : {W : Type 0} → Calls W → (f local finally_fun fun arg : ℕ) → Code W ℕ
unfolding finally_around
mpe_finally calls f local finally_fun fun arg =
    finally_around calls f local finally_fun (calls.action fun arg)

-- The part of `mpe_handle_start` that calls the result function.
unfoldable pub apply_result : {W : Type 0} → Calls W → (f x : ℕ) → Code W ℕ
apply_result calls f x s w =
    let fun = (s.hdefs (s.frames f).hdef).resultfun in
    if not (fun == 0) then calls.resultfun fun (s.frames f).local x s w else returned x s w

-- The part that catches an unwind exception.
unfoldable pub catch_unwind : {W : Type 0} → Calls W → (f : ℕ) → Exn → Code W ℕ
catch_unwind calls f (unwind target opfun arg) s w =
    if not (target == f)
    then thrown (unwind target opfun arg) s w
    else calls.opfun opfun none (s.frames f).local arg s w
catch_unwind calls f (other n) s w = thrown (other n) s w

-- `mpe_handle_start` on the stack of the new prompt, around any code.
unfoldable pub handle_around :
    {W : Type 0} → Calls W → (f prompt hdef local : ℕ) → Code W ℕ → Code W ℕ
unfolding with_frame apply_result catch_unwind
handle_around calls f prompt hdef local body s w =
    let r = record (s.frames f) {
      prompt = prompt;
      hdef = hdef;
      local = local;
      effect = (s.hdefs hdef).effect;
    } in
    catching (and_then (with_frame f r body s w) (apply_result calls f)) (catch_unwind calls f)

unfoldable pub handle_start : {W : Type 0} → Calls W → (f prompt hdef local body arg : ℕ) → Code W ℕ
unfolding handle_around
handle_start calls f prompt hdef local body arg =
    handle_around calls f prompt hdef local (calls.action body arg)
