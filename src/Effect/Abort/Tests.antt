-- ===== src/Effect/Abort/Tests.antt =====
-- An abort, on a stack of three prompts, to the handler of the one in the middle.
use libmprompt.Base.{ℕ, ◌+◌, true, false, [], write}
use libmprompt.Base.Int.{pos}
use libmprompt.Util.{guard}
use libmprompt.Prompt.State
use libmprompt.Prompt.State.{Prompt, returned}
use libmprompt.Effect.State.{Frame, op_abort}
use libmprompt.Effect.Abort.{World, Call}

abbrev nowhere : Prompt
nowhere = record {
  parent = 0;
  top = 0;
  refcount = pos 0;
  gstack = 0;
  return_point = 0;
  resume_point = 0;
  sp = 0;
  unwind_frame = 0;
  live = false;
}

-- An active prompt, entered from the return point `ret`.
abbrev active_prompt : (parent gstack ret : ℕ) → Prompt
active_prompt parent gstack ret = record nowhere {
  parent = parent;
  refcount = pos 1;
  gstack = gstack;
  return_point = ret;
  sp = guard 90 (1000 + ret);
  live = true;
}

-- The prompts 24, 16 and 8, innermost first, in a release build.
abbrev three : State.State
three = record {
  prompts =
      write (write (write (λ x. nowhere) 8 (active_prompt 0 11 100)) 16 (active_prompt 8 12 200)) 24
        (active_prompt 16 13 300);
  returns = λ x. record {
    jmp = record { reg_ip = 77; reg_sp = 1000 + x };
    kind = returned;
    fun = 0;
    arg = 0;
  };
  resumes = λ x. record { jmp = record { reg_ip = 78; reg_sp = 1000 + x }; result = 0 };
  prompt_top = 24;
  return_label = guard 90 77;
  resume_label = 0;
  cookie = 90;
  debug = false;
  released = [];
}

-- A handler frame.
abbrev frame : (parent prompt local : ℕ) → Frame
frame parent prompt local = record {
  effect = 50;
  parent = parent;
  prompt = prompt;
  hdef = 7;
  local = local;
  under = 0;
  mask = 0;
  from = 0;
  fun = 0;
}

-- Each prompt has a handler: the frames 3, 2 and 1.
abbrev world : World
world = record {
  effects = record {
    frames =
        write (write (write (λ x. frame 0 0 0) 1 (frame 0 8 31)) 2 (frame 1 16 32)) 3
          (frame 2 24 33);
    frame_top = 3;
    hdefs = λ x. record {
      effect = 50;
      resultfun = 0;
      operations = λ i. record { opkind = op_abort; opfun = 60 };
    };
    debug = false;
  };
  store = record {
    base = three;
    mresumes = λ r. record {
      refcount = pos 0;
      resume_count = 0;
      prompt = 0;
      save = [];
      tail_return_point = 0;
      live = false;
    };
  };
}

abbrev call : Call
call = record { opfun = 60; resume = 0; local = 32; arg = 5 }
