-- ===== src/Prompt/Ops.antt =====
-- The functions of src/mprompt/mprompt.c on single prompts and on the prompt chain.
use libmprompt.Base.{ℕ, zero, suc, Bool, true, false, not, ◌==◌, if◌then◌else◌, write}
use libmprompt.Base.Int.{pos, ◌+ℤ◌, leb_ℤ, eq_ℤ, dec}
use libmprompt.Util.{guard, unguard}
use libmprompt.Prompt.State.{
  fault, M, pure, ◌>>=◌, ◌>>◌, get, put, assert, check, fail, load, store, set_top, release, enomem,
  efault, Jmpbuf,
}

-- `mp_prompt_top`, and `mp_prompt_parent` with its start at NULL.
unfoldable pub prompt_parent : ℕ → M ℕ
prompt_parent p = do s ← get; if p == 0 then pure s.prompt_top else (do r ← load p; pure r.parent)

unfoldable pub prompt_is_active : ℕ → M Bool
prompt_is_active p = if p == 0 then pure false else (do r ← load p; pure (r.top == 0))

-- The loop of `mp_prompt_is_ancestor`, from `q` on; the fuel bounds the length of the chain.
unfoldable pub is_ancestor_from : ℕ → ℕ → ℕ → M Bool
is_ancestor_from zero p q = λ _. fault
is_ancestor_from (suc fuel) p q = do
  q' ← prompt_parent q
  if q' == 0 then pure false else if q' == p then pure true else is_ancestor_from fuel p q'

unfoldable pub prompt_is_ancestor : ℕ → ℕ → M Bool
prompt_is_ancestor fuel p = is_ancestor_from fuel p 0

-- `mp_prompt_create`: `gstack` and `p` are what `mp_gstack_alloc` returns.
unfoldable pub prompt_create : (gstack p : ℕ) → M ℕ
prompt_create gstack p = if gstack == 0 then fail enomem else do
  s ← get
  put (record s {
    prompts = write s.prompts p (record {
      parent = 0;
      top = p;
      refcount = pos 1;
      gstack = gstack;
      return_point = 0;
      resume_point = 0;
      sp = (s.prompts p).sp;
      unwind_frame = 0;
      live = true;
    });
  })
  pure p

abbrev pub prompt_is_suspended : ℕ → M Bool
prompt_is_suspended p = do b ← prompt_is_active p; pure (not b)

-- The last step of an iteration of `mp_prompt_free`: the parent loses a reference.
unfoldable pub drop_parent : ℕ → M (Unit {0})
drop_parent parent = if parent == 0 then pure tt else do
  r ← load parent
  assert (eq_ℤ r.refcount (pos 1))
  store parent (record r { refcount = dec r.refcount })

-- The loop of `mp_prompt_free`, from `p` on.
unfoldable pub free_from : ℕ → ℕ → Bool → M (Unit {0})
unfolding drop_parent
free_from zero p delay = λ _. fault
free_from (suc fuel) p delay = if p == 0 then pure tt else do
  r ← load p
  assert (eq_ℤ r.refcount (pos 0))
  release p r delay
  drop_parent r.parent
  free_from fuel r.parent delay

-- `mp_prompt_free`.
unfoldable pub prompt_free : ℕ → ℕ → Bool → M (Unit {0})
unfolding prompt_is_active
prompt_free fuel p delay = do check (prompt_is_suspended p); r ← load p; free_from fuel r.top delay

-- `mp_prompt_drop_internal`; `mp_prompt_drop` and `mp_prompt_drop_delayed` are its two uses.
unfoldable pub prompt_drop_internal : ℕ → ℕ → Bool → M (Unit {0})
unfolding prompt_free
prompt_drop_internal fuel p delay = do
  r ← load p
  store p (record r { refcount = dec r.refcount })
  if leb_ℤ r.refcount (pos 1) then prompt_free fuel p delay else pure tt

-- `mp_prompt_dup`.
unfoldable pub prompt_dup : ℕ → M ℕ
prompt_dup p = do r ← load p; store p (record r { refcount = r.refcount +ℤ pos 1 }); pure p

-- `mp_prompt_link`: returns the resume point of `p` and its guarded stack pointer.
unfoldable pub prompt_link : (p ret : ℕ) → M (ℕ × ℕ)
unfolding prompt_is_active
prompt_link p ret = do
  assert (not (ret == 0))
  check (prompt_is_suspended p)
  r ← load p
  s ← get
  set_top r.top
  store p (
      if ret == 0 then record r { parent = s.prompt_top; top = 0 } else record r {
        parent = s.prompt_top;
        top = 0;
        return_point = ret;
        sp = guard s.cookie (s.returns ret).jmp.reg_sp;
      })
  check (prompt_is_active p)
  pure (r.resume_point, r.sp)

-- `mp_prompt_unlink`: returns the return point of `p` and its guarded stack pointer.
unfoldable pub prompt_unlink : (fuel p res : ℕ) → M (ℕ × ℕ)
unfolding prompt_is_active
prompt_unlink fuel p res = do
  check (prompt_is_active p)
  check (prompt_is_ancestor fuel p)
  r ← load p
  s ← get
  set_top r.parent
  store p (
      if res == 0
      then record r { parent = 0; top = s.prompt_top; resume_point = res }
      else record r {
        parent = 0;
        top = s.prompt_top;
        resume_point = res;
        sp = guard s.cookie (s.resumes res).jmp.reg_sp;
      })
  check (prompt_is_suspended p)
  pure (r.return_point, r.sp)

-- `mp_checked_longjmp`: jumps to the given place only if its code and stack addresses are the
-- guarded ones.
unfoldable pub checked_longjmp : (label sp : ℕ) → Jmpbuf → M (Unit {0})
checked_longjmp label sp jmp = do
  s ← get
  if not (unguard s.cookie label == jmp.reg_ip)
      then fail efault
      else if not (unguard s.cookie sp == jmp.reg_sp)
      then fail efault
      else pure tt
