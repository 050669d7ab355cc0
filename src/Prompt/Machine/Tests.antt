-- ===== src/Prompt/Machine/Tests.antt =====
-- The abstract machine of prompts and the code, on two nested prompts of which the outer one yields from
-- inside the inner one.
use libmprompt.Base.{
  Bool, ℕ, ◌+◌, ◌↔◌, ◌≢◌, has, ◌+◌, ◌≡◌, refl, inl, inr, true, false, List, [], ◌∷◌, arith, map,
  Distinct,
}
use libmprompt.Base.Int.{pos}
use libmprompt.Prompt.State.{State, done, fault, returned}
use libmprompt.Prompt.Switch.{call_yielded, return_value, rethrow}
use libmprompt.Prompt.Free.{stacks_of}
use libmprompt.Prompt.Start.{entered}
use libmprompt.Prompt.Machine.{
  free, Machine, no_prompts, Action, begins, yields, resumes, ends, throws, drops, Landing, enters,
  lands, continues, goes_on, begun, suspended, restarted, ended, dropped, begins_new, yields_to,
  resumes_held, ends_top, throws_top, drops_held, Steps, no_more, and_then, run, run_all,
}
use libmprompt.Prompt.Machine.Represents.{Labels, Represents, Used-entered}
use libmprompt.Prompt.Machine.Simulation.{run_all_lem}
use libmprompt.Prompt.Machine.Stacks.{occurs}
use libmprompt.Prompt.Machine.Balance.{stacks_balanced}
use libmprompt.Prompt.Machine.Misuse.{misuse_stops}

-- The code after `mp_setjmp` is at 77 for return points and at 78 for resume points.
abbrev start : (debug : Bool) → State
start debug = record {
  prompts = λ x. record {
    parent = 0;
    top = 0;
    refcount = pos 0;
    gstack = 0;
    return_point = 0;
    resume_point = 0;
    sp = 0;
    unwind_frame = 0;
    live = false;
  };
  returns = λ x. record {
    jmp = record { reg_ip = 77; reg_sp = 1000 + x };
    kind = returned;
    fun = 0;
    arg = 0;
  };
  resumes = λ x. record { jmp = record { reg_ip = 78; reg_sp = 2000 + x }; result = 0 };
  prompt_top = 0;
  return_label = 0;
  resume_label = 0;
  cookie = 90;
  debug = debug;
  released = [];
}

start-Labels : (debug : Bool) → Labels 77 78 (start debug)
start-Labels debug = record {
  return_label = inl refl;
  resume_label = inl refl;
  returns = λ r. refl;
  resumes = λ r. refl;
}

-- Two prompts, a yield to the outer one, its resume from another place, and what both give back: the
-- inner one by an exception. Then a third one, with a fourth on it, yields and is dropped, in a release
-- build.
abbrev acts : List Action
acts =
    begins 11 1 9 100
    ∷ begins 12 2 8 200
    ∷ yields 1 7 6 400
    ∷ resumes 1 5 300
    ∷ throws 2
    ∷ ends 1 3
    ∷ begins 13 3 10 500
    ∷ begins 14 4 10 700
    ∷ yields 3 14 15 600
    ∷ drops 3
    ∷ []

abbrev landings : List Landing
landings =
    enters 1 9
    ∷ enters 2 8
    ∷ lands 100 (call_yielded 7 1 6)
    ∷ continues 400 5
    ∷ lands 200 rethrow
    ∷ lands 300 (return_value 3)
    ∷ enters 3 10
    ∷ enters 4 10
    ∷ lands 500 (call_yielded 14 3 15)
    ∷ goes_on
    ∷ []

abbrev nested : Machine
nested = begun (begun no_prompts 11 1 100) 12 2 200

abbrev again : Machine
again = restarted (suspended nested 1 400 (2 ∷ []) []) 1 300 (2 ∷ [])

abbrev last_two : Machine
last_two = begun (begun (ended (ended again 2 true (1 ∷ [])) 1 false []) 13 3 500) 14 4 700

abbrev at_end : Machine
at_end = dropped (suspended last_two 3 600 (4 ∷ []) []) 3 (4 ∷ [])

last-Steps :
    Steps false 2
      (ended (ended again 2 true (1 ∷ [])) 1 false [])
      (begins 13 3 10 500 ∷ begins 14 4 10 700 ∷ yields 3 14 15 600 ∷ drops 3 ∷ [])
      (enters 3 10 ∷ enters 4 10 ∷ lands 500 (call_yielded 14 3 15) ∷ goes_on ∷ [])
      at_end
last-Steps = and_then (begins_new (omega arith) (omega arith) (omega arith) refl (omega arith)) (
    and_then (begins_new (omega arith) (omega arith) (omega arith) refl (omega arith)) (
      and_then (yields_to (4 ∷ []) [] refl (omega arith))
        (and_then (drops_held (4 ∷ []) refl refl) no_more)))

acts-Steps : Steps false 2 no_prompts acts landings at_end
acts-Steps = and_then (begins_new (omega arith) (omega arith) (omega arith) refl (omega arith)) (
    and_then (begins_new (omega arith) (omega arith) (omega arith) refl (omega arith)) (
      and_then (yields_to (2 ∷ []) [] refl (omega arith)) (
        and_then (resumes_held (2 ∷ []) refl (omega arith) (omega arith))
          (and_then (throws_top (1 ∷ []) refl) (and_then (ends_top [] refl) last-Steps)))))

run_all_example :
    (t : State) × (run_all 3 acts (start false) ≡ done landings t)
    × Represents false 77 78 2 t at_end
run_all_example =
    run_all_lem 77 78 2 1 (start false) at_end acts landings (omega arith) (start-Labels false) refl
      refl acts-Steps

-- The stacks come back, the innermost first, and that of the exception later.
at_end_released : at_end.released ≡ (13, false) ∷ (14, false) ∷ (11, false) ∷ (12, true) ∷ []
at_end_released = refl

-- The prompt 1, as `mp_prompt` has left it.
abbrev one : State
one = entered (start true) 11 1 100

one-Represents : Represents true 77 78 2 one (begun no_prompts 11 1 100)
one-Represents = record {
  labels = record {
    return_label = inr refl;
    resume_label = inl refl;
    returns = λ r. refl;
    resumes = λ r. refl;
  };
  active = record { chain = ground arith; each = ground arith; distinct = ground arith };
  bounded = omega arith;
  marked = λ x i. ground arith;
  held = λ q xs c. absurd (ground arith);
  used = λ x u.
      Used-entered one (begun no_prompts 11 1 100) 1 x (ground arith) refl refl refl
        (record { sp_guarded = refl; ip_guarded = refl });
  released = refl;
  same_debug = refl;
  held_short = λ q xs c. absurd (ground arith);
}

misuse_stops_example : run 3 (resumes 1 5 300) one ≡ fault
misuse_stops_example =
    misuse_stops 77 78 2 3 one (begun no_prompts 11 1 100) 1 7 6 400 5 300 one-Represents
      (omega arith)

stacks_balanced_example :
    (t : State) × (run_all 3 acts (start false) ≡ done landings t)
    × (left : List ℕ) × (occurs 12 (stacks_of t left) + occurs 12 (map (λ r. r.0) t.released) ≡ 1)
    × Distinct left
    × ((x : ℕ) → (has x left ≡ true) ↔ (at_end.place x ≢ free))
stacks_balanced_example =
    stacks_balanced 77 78 2 1 (start false) at_end acts landings 12 (omega arith)
      (start-Labels false) refl refl acts-Steps
