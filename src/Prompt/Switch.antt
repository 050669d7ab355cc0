-- ===== src/Prompt/Switch.antt =====
-- The control transfers of src/mprompt/mprompt.c. `mp_setjmp` returns a second time after a jump, so
-- a function that calls it is two functions here: up to its jump, and from its landing on. The
-- addresses of its local return or resume point and of the code after `mp_setjmp` are arguments.
use libmprompt.Base.{ℕ, true, false, not, ◌==◌, if◌then◌else◌}
use libmprompt.Base.Int.{pos, eq_ℤ}
use libmprompt.Util.{guard}
use libmprompt.Prompt.State.{
  ReturnKind, returned, exception, yielded, M, pure, ◌>>=◌, ◌>>◌, get, put, assert, check, load,
  set_return, set_resume,
}
use libmprompt.Prompt.Ops.{
  prompt_create, prompt_is_active, prompt_is_suspended, prompt_is_ancestor, prompt_link,
  prompt_unlink, checked_longjmp, prompt_drop_internal,
}

-- Where control goes: to a return point, to a resume point, or into a fresh stack.
pub data Jump : Type 0 where
  to_return to_resume : ℕ → Jump
  enter_stack : (p arg : ℕ) → Jump

-- What runs after a landing at a return point.
pub data Next : Type 0 where
  call_yielded : (fun resumption arg : ℕ) → Next
  return_value : ℕ → Next
  rethrow : Next

-- Remember where the code after a `mp_setjmp` stands, on the first call.
abbrev pub init_return_label : ℕ → M (Unit {0})
init_return_label ip = do
  s ← get
  if s.return_label == 0 then put (record s { return_label = guard s.cookie ip }) else pure tt

abbrev pub init_resume_label : ℕ → M (Unit {0})
init_resume_label ip = do
  s ← get
  if s.resume_label == 0 then put (record s { resume_label = guard s.cookie ip }) else pure tt

-- Deliver the argument of a resume, and jump.
unfoldable pub jump_to_resume : (res sp arg : ℕ) → M Jump
jump_to_resume res sp arg = do
  s ← get
  set_resume res (record (s.resumes res) { result = arg })
  checked_longjmp s.resume_label sp (s.resumes res).jmp
  pure (to_resume res)

-- `mp_prompt_resume`, up to the jump.
unfoldable pub prompt_resume : (p arg ret : ℕ) → M Jump
unfolding jump_to_resume
prompt_resume p arg ret = do
  s ← get
  init_return_label (s.returns ret).jmp.reg_ip
  r ← load p
  assert (r.parent == 0)
  (res, sp) ← prompt_link p ret
  if res == 0 then pure (enter_stack p arg) else jump_to_resume res sp arg

-- `mp_prompt_enter`; `env` is the address of the start function and its argument.
unfoldable pub prompt_enter : (p env ret : ℕ) → M Jump
unfolding prompt_resume
prompt_enter p env ret = do
  check (prompt_is_suspended p)
  r ← load p
  assert (r.resume_point == 0)
  prompt_resume p env ret

-- `mp_prompt`: `gstack` and `p` are what `mp_gstack_alloc` returns.
unfoldable pub mp_prompt : (gstack p env ret : ℕ) → M Jump
unfolding prompt_enter
mp_prompt gstack p env ret = do q ← prompt_create gstack p; prompt_enter q env ret

-- `mp_prompt_resume_tail`.
unfoldable pub prompt_resume_tail : (p arg ret : ℕ) → M Jump
unfolding jump_to_resume
prompt_resume_tail p arg ret = do
  r ← load p
  assert (eq_ℤ r.refcount (pos 1))
  check (prompt_is_suspended p)
  assert (not (r.resume_point == 0))
  (res, sp) ← prompt_link p ret
  jump_to_resume res sp arg

-- Fill in the return point and jump to it.
unfoldable pub jump_to_return : (ret sp fun arg : ℕ) → ReturnKind → M Jump
jump_to_return ret sp fun arg kind = do
  s ← get
  set_return ret (record (s.returns ret) { fun = fun; arg = arg; kind = kind })
  checked_longjmp s.return_label sp (s.returns ret).jmp
  pure (to_return ret)

-- `mp_prompt_stack_entry`, from the return of the start function on, and from its exception on.
unfoldable pub stack_entry_return : (fuel p result : ℕ) → M Jump
unfolding jump_to_return
stack_entry_return fuel p result = do
  (ret, sp) ← prompt_unlink fuel p 0
  jump_to_return ret sp 0 result returned

unfoldable pub stack_entry_exception : (fuel p : ℕ) → M Jump
unfolding jump_to_return
stack_entry_exception fuel p = do
  (ret, sp) ← prompt_unlink fuel p 0
  jump_to_return ret sp 0 0 exception

-- `mp_yield`, up to the jump; `res` is the resume point on the yielding stack.
unfoldable pub yield_to : (fuel p fun arg res : ℕ) → M Jump
unfolding jump_to_return
yield_to fuel p fun arg res = do
  check (prompt_is_ancestor fuel p)
  check (prompt_is_active p)
  s ← get
  init_resume_label (s.resumes res).jmp.reg_ip
  (ret, sp) ← prompt_unlink fuel p res
  jump_to_return ret sp fun arg yielded

-- `mp_yield`, from its landing on: the value of the resume.
unfoldable pub yield_resumed : (fuel p res : ℕ) → M ℕ
yield_resumed fuel p res = do
  check (prompt_is_active p)
  check (prompt_is_ancestor fuel p)
  s ← get
  pure (s.resumes res).result

-- The branches of `mp_prompt_exec_yield_fun`. The last one is built with C++ only.
unfoldable pub exec_kind : (fuel p : ℕ) → ReturnKind → (fun arg : ℕ) → M Next
exec_kind fuel p yielded fun arg = pure (call_yielded fun p arg)
exec_kind fuel p returned fun arg = prompt_drop_internal fuel p false >> pure (return_value arg)
exec_kind fuel p exception fun arg = prompt_drop_internal fuel p true >> pure rethrow

-- `mp_prompt_exec_yield_fun`: the landing of `mp_prompt_resume`.
unfoldable pub exec_yield_fun : (fuel ret p : ℕ) → M Next
unfolding exec_kind
exec_yield_fun fuel ret p = do
  check (prompt_is_suspended p)
  s ← get
  exec_kind fuel p (s.returns ret).kind (s.returns ret).fun (s.returns ret).arg
