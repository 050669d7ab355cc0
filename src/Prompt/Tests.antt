-- ===== src/Prompt/Tests.antt =====
-- The theorems on prompts, applied to a stack of three prompts and to a prompt that has captured
-- another one.
use libmprompt.Base.{
  ℕ, ◌+◌, ◌≡◌, refl, inl, inr, Bool, true, false, [], ◌∷◌, map, arith, write, take, All,
}
use libmprompt.Base.Int.{pos}
use libmprompt.Util.{guard}
use libmprompt.Prompt.State.{
  Prompt, ReturnPoint, ResumePoint, State, done, fault, fatal, efault, returned,
}
use libmprompt.Prompt.Ops.{prompt_drop_internal}
use libmprompt.Prompt.Switch.{
  to_return, to_resume, return_value, call_yielded, yield_to, yield_resumed, prompt_resume,
  exec_yield_fun, stack_entry_return,
}
use libmprompt.Prompt.Chain.{IsActive, IsSuspended}
use libmprompt.Prompt.Yield.{ReturnsSafely, yielded_state, yield_to_lem, yield_to_tampered}
use libmprompt.Prompt.Resume.{resumed_state}
use libmprompt.Prompt.Roundtrip.{yield_resume_lem}
use libmprompt.Prompt.Return.{stack_entry_return_lem, stack_entry_exception_lem}
use libmprompt.Base.{List, has, if◌then◌else◌}
use libmprompt.Prompt.Switch.{enter_stack, mp_prompt, stack_entry_exception, rethrow}
use libmprompt.Prompt.Start.{entered, mp_prompt_lem}
use libmprompt.Prompt.Saved.{dup_of}
use libmprompt.Prompt.Restore.{prompt_restore-save}
use libmprompt.Prompt.Multi.{Store, Save, resume_multi, prompt_save, prompt_restore}
use libmprompt.Prompt.Dispatch.{mp_resume_multi, mp_resume}
use libmprompt.Prompt.Oneshot.{on_prompts, multi_resumes_as_once}
use libmprompt.Prompt.Backtrace.{Frame, mach_backtrace, visible, reachable, mach_backtrace_lem}
use libmprompt.Prompt.Free.{Freed}
use libmprompt.Prompt.Drop.{prompt_drop_last, prompt_drop_asserts}

abbrev cookie : ℕ
cookie = 90

abbrev nowhere : Prompt
nowhere = record {
  parent = 0;
  top = 0;
  refcount = pos 0;
  gstack = 0;
  return_point = 0;
  resume_point = 0;
  sp = 0;
  unwind_frame = 0;
  live = false;
}

-- An active prompt on the stack `g`, entered from the return point `ret`.
abbrev active_prompt : (parent g ret : ℕ) → Prompt
active_prompt parent g ret = record nowhere {
  parent = parent;
  refcount = pos 1;
  gstack = g;
  return_point = ret;
  sp = guard cookie (1000 + ret);
  live = true;
}

-- The stack pointer at a return or resume point `x` is 1000 above its address.
abbrev return_at : ℕ → ReturnPoint
return_at x = record {
  jmp = record { reg_ip = 77; reg_sp = 1000 + x };
  kind = returned;
  fun = 0;
  arg = 0;
}

abbrev resume_at : ℕ → ResumePoint
resume_at x = record { jmp = record { reg_ip = 78; reg_sp = 1000 + x }; result = 0 }

abbrev start : State
start = record {
  prompts = λ x. nowhere;
  returns = return_at;
  resumes = resume_at;
  prompt_top = 0;
  return_label = guard cookie 77;
  resume_label = 0;
  cookie = cookie;
  debug = true;
  released = [];
}

-- The prompts 3, 2 and 1, innermost first.
abbrev three : State
three = record start {
  prompt_top = 3;
  prompts =
      write (write (write start.prompts 1 (active_prompt 0 11 100)) 2 (active_prompt 1 12 200)) 3
        (active_prompt 2 13 300);
}

three-IsActive : IsActive three (3 ∷ 2 ∷ 1 ∷ [])
three-IsActive = record { chain = ground arith; each = ground arith; distinct = ground arith }

three-ReturnsSafely : ReturnsSafely three 2
three-ReturnsSafely = record { sp_guarded = refl; ip_guarded = refl }

yield_to_example :
    let t = yielded_state three 2 7 8 400 in
    (yield_to 5 2 7 8 400 three ≡ done (to_return 200) t)
    × (exec_yield_fun 5 200 2 t ≡ done (call_yielded 7 2 8) t)
    × IsSuspended t 2 (3 ∷ [])
    × IsActive t (1 ∷ [])
yield_to_example =
    yield_to_lem three 5 5 2 7 8 400 (3 ∷ []) (1 ∷ []) three-IsActive three-ReturnsSafely
      (omega arith)

yield_resume_example :
    let t = yielded_state three 2 7 8 400 in
    let u = resumed_state t 2 9 500 in
    (yield_to 5 2 7 8 400 three ≡ done (to_return 200) t)
    × (prompt_resume 2 9 500 t ≡ done (to_resume 400) u)
    × (yield_resumed 5 2 400 u ≡ done 9 u)
    × IsActive u (3 ∷ 2 ∷ 1 ∷ [])
    × ReturnsSafely u 2
yield_resume_example =
    yield_resume_lem three 5 2 7 8 400 500 9 (3 ∷ []) (1 ∷ []) three-IsActive three-ReturnsSafely
      (omega arith) (omega arith) (omega arith) (inl refl) refl

-- Another stack pointer stands at the return point of the prompt 2.
abbrev overwritten : State
overwritten = record three {
  returns =
      write return_at 200 (record (return_at 200) { jmp = record { reg_ip = 77; reg_sp = 6 } });
}

overwritten-IsActive : IsActive overwritten (3 ∷ 2 ∷ 1 ∷ [])
overwritten-IsActive = record { chain = ground arith; each = ground arith; distinct = ground arith }

yield_to_tampered_example : yield_to 5 2 7 8 400 overwritten ≡ fatal efault
yield_to_tampered_example =
    yield_to_tampered overwritten 5 2 7 8 400 1200 (3 ∷ []) (1 ∷ []) overwritten-IsActive refl
      (omega arith) (omega arith)

stack_entry_return_example :
    (t s' : State) × (stack_entry_return 5 3 8 three ≡ done (to_return 300) t)
    × (exec_yield_fun 5 300 3 t ≡ done (return_value 8) s')
    × IsActive s' (2 ∷ 1 ∷ [])
    × ((s'.prompts 3).live ≡ false)
    × (s'.released ≡ (13, false) ∷ [])
    × All (λ x. s'.prompts x ≡ three.prompts x) (2 ∷ 1 ∷ [])
stack_entry_return_example =
    stack_entry_return_lem three 4 3 3 8 (2 ∷ 1 ∷ []) three-IsActive
      (record { sp_guarded = refl; ip_guarded = refl }) refl

stack_entry_exception_example :
    (t s' : State) × (stack_entry_exception 5 3 three ≡ done (to_return 300) t)
    × (exec_yield_fun 5 300 3 t ≡ done rethrow s')
    × IsActive s' (2 ∷ 1 ∷ [])
    × ((s'.prompts 3).live ≡ false)
    × (s'.released ≡ (13, true) ∷ [])
    × All (λ x. s'.prompts x ≡ three.prompts x) (2 ∷ 1 ∷ [])
stack_entry_exception_example =
    stack_entry_exception_lem three 4 3 3 (2 ∷ 1 ∷ []) three-IsActive
      (record { sp_guarded = refl; ip_guarded = refl }) refl

-- The prompt 2 has captured the prompt 3, and the prompt 1 is active.
abbrev captured : Bool → State
captured debug = record start {
  prompt_top = 1;
  resume_label = guard cookie 78;
  debug = debug;
  prompts =
      write
        (write (write start.prompts 1 (active_prompt 0 11 100)) 2
          (record (active_prompt 0 12 200) { top = 3; resume_point = 400; sp = guard cookie 1400 }))
        3 (active_prompt 2 13 300);
}

captured-IsActive : (debug : Bool) → IsActive (captured debug) (1 ∷ [])
captured-IsActive debug = record {
  chain = ground arith;
  each = ground arith;
  distinct = ground arith;
}

captured-IsSuspended : (debug : Bool) → IsSuspended (captured debug) 2 (3 ∷ [])
captured-IsSuspended debug = record {
  chain = ground arith;
  above = ground arith;
  ne_null = omega arith;
  live = refl;
  top_ne = omega arith;
  distinct = ground arith;
}

prompt_drop_last_example :
    (s' : State) × (prompt_drop_internal 5 2 false (captured false) ≡ done tt s')
    × Freed false (3 ∷ 2 ∷ []) (captured false) s'
prompt_drop_last_example =
    prompt_drop_last (captured false) 5 2 (3 ∷ []) false refl (captured-IsSuspended false) refl
      (omega arith)

prompt_drop_asserts_example : prompt_drop_internal 5 2 false (captured true) ≡ fault
prompt_drop_asserts_example =
    prompt_drop_asserts (captured true) 4 2 3 [] false refl (captured-IsSuspended true) refl refl

-- A prompt that was created and is used nowhere.
abbrev fresh : State
fresh = record start { prompts = write start.prompts 4 (record (active_prompt 0 14 0) { top = 4 }) }

fresh-IsSuspended : IsSuspended fresh 4 []
fresh-IsSuspended = record {
  chain = ground arith;
  above = tt;
  ne_null = omega arith;
  live = refl;
  top_ne = omega arith;
  distinct = ground arith;
}

-- A multi-shot resumption at 800, of the prompt 2.
abbrev multi_shot : Store
multi_shot = resume_multi 800 2 (record {
  base = captured true;
  mresumes = λ x. record {
    refcount = pos 0;
    resume_count = 0;
    prompt = 0;
    save = [];
    tail_return_point = 0;
    live = false;
  };
})

-- Since the save, the prompt 3 has run, and has other references.
abbrev run_since : State
run_since = record (captured true) {
  prompts =
      write (captured true).prompts 3
        (record ((captured true).prompts 3) { refcount = pos 7; sp = 0; return_point = 900 });
}

prompt_restore-save_example :
    (saves : List Save) × (s' : State) × (u' : State) × (prompt_save 3 2 (captured true)
      ≡ done saves s')
    × ((y : ℕ)
        → s'.prompts y
          ≡ (if has y (3 ∷ 2 ∷ []) then dup_of (captured true) y else (captured true).prompts y))
    × (prompt_restore 2 saves run_since ≡ done tt u')
    × ((y : ℕ) → u'.prompts y ≡ (if has y (3 ∷ 2 ∷ []) then s'.prompts y else run_since.prompts y))
prompt_restore-save_example =
    prompt_restore-save 3 (captured true) run_since 2 (3 ∷ []) (captured-IsSuspended true)
      (omega arith) (refl, (refl, tt)) (omega arith)

-- The prompt 16 was suspended.
abbrev suspended_16 : State
suspended_16 = record start {
  prompt_top = 0;
  resume_label = guard cookie 78;
  prompts =
      write start.prompts 16
        (record (active_prompt 0 12 200) { top = 16; resume_point = 400; sp = guard cookie 1400 });
}

abbrev store_16 : Store
store_16 = record { base = suspended_16; mresumes = multi_shot.mresumes }

multi_resumes_as_once_example :
    on_prompts
      (mp_resume 5 (mp_resume_multi 800 16 store_16).0 9 500 (mp_resume_multi 800 16 store_16).1)
    ≡ on_prompts (mp_resume 5 16 9 500 store_16)
multi_resumes_as_once_example =
    multi_resumes_as_once store_16 5 800 16 9 500 refl refl (omega arith) refl refl (omega arith)

abbrev frame : ℕ → Bool → Frame
frame ip entry = record { ip = ip; entry = entry }

-- Two frames of the innermost stack are the backtrace's own, and its third one is its entry.
backtrace_example :
    mach_backtrace
      ((frame 1 false ∷ frame 2 false ∷ frame 3 false ∷ frame 4 true ∷ frame 5 false ∷ [])
        ∷ (frame 6 false ∷ frame 7 false ∷ frame 8 true ∷ [])
        ∷ (frame 9 false ∷ frame 10 false ∷ frame 11 false ∷ frame 12 false ∷ [])
        ∷ [])
      4
    ≡ 3 ∷ 4 ∷ 8 ∷ 11 ∷ []
unfolding mach_backtrace
backtrace_example = refl

mach_backtrace_example :
    mach_backtrace ((frame 1 false ∷ frame 2 false ∷ frame 3 true ∷ []) ∷ []) 4
    ≡ take 4 (reachable (map visible ((frame 1 false ∷ frame 2 false ∷ frame 3 true ∷ []) ∷ [])))
mach_backtrace_example =
    mach_backtrace_lem ((frame 1 false ∷ frame 2 false ∷ frame 3 true ∷ []) ∷ []) 4

mp_prompt_example :
    let t = entered (captured true) 15 5 500 in
    (mp_prompt 15 5 9 500 (captured true) ≡ done (enter_stack 5 9) t)
    × IsActive t (5 ∷ 1 ∷ [])
    × ((t.prompts 5).refcount ≡ pos 1)
    × ((t.prompts 5).return_point ≡ 500)
    × ReturnsSafely t 5
mp_prompt_example =
    mp_prompt_lem (captured true) 15 5 9 500 (1 ∷ []) (omega arith) (omega arith) (omega arith)
      (captured-IsActive true) refl (inr refl)
