-- ===== src/Effect/Cpp/Tests.antt =====
-- The theorems on the C++ build, applied to a handler of the effect 50 at 10 and calls of `mpe_finally`
-- at 20 and 40 inside of it; the finally functions log their calls.
use libmprompt.Base.{ℕ, ◌+◌, ◌≡◌, refl, inr, true, List, [], ◌∷◌, arith}
use libmprompt.Effect.State.{State, op_never}
use libmprompt.Effect.Find.{mpe_find}
use libmprompt.Effect.Perform.{ResumeEnv}
use libmprompt.Effect.Cpp.{
  Calls, Code, other, returned, thrown, pure, throw, finally_around, handle_around, perform_resumed,
  with_unwind,
}
use libmprompt.Effect.Cpp.Unwind.{Layer, masking, protecting, handling, pushed, pushed_all, within}
use libmprompt.Effect.Cpp.Release.{performing, perform_never_lem, release_lem}
use libmprompt.Effect.Cpp.Finally.{finally_once, finally_twice}

abbrev calls : Calls (List ℕ)
calls = record {
  opfun = λ fun r local arg. pure (local + arg);
  action = λ fun arg. pure arg;
  resultfun = λ fun local arg. pure arg;
  releasefun = λ fun local s w. returned tt s (fun ∷ w);
}

-- Finally functions that throw.
abbrev throwing : Calls (List ℕ)
throwing = record calls { releasefun = λ fun local s w. thrown (other 5) s (fun ∷ w) }

abbrev start : State
start = record {
  frames = λ x. record {
    effect = 0;
    parent = 0;
    prompt = 0;
    hdef = 0;
    local = 0;
    under = 0;
    mask = 0;
    from = 0;
    fun = 0;
  };
  frame_top = 100;
  hdefs = λ x. record {
    effect = 50;
    resultfun = 0;
    operations = λ i. record { opkind = op_never; opfun = 55 };
  };
  debug = true;
}

abbrev layers : List Layer
layers = protecting 20 0 201 ∷ masking 30 60 0 ∷ protecting 40 0 202 ∷ []

abbrev inner : State
inner = pushed_all (handling 10 7 8 9 ∷ layers) start

perform_never_example :
    handle_around calls 10 7 8 9
      (within calls layers (performing calls 5 0 50 0 3 (λ r. pure 0)))
      start
      []
    ≡ returned 12 (record inner { frame_top = 100 }) (201 ∷ 202 ∷ [])
unfolding mpe_find
perform_never_example =
    perform_never_lem calls (λ fun local w. fun ∷ w) 10 7 8 9 layers start 5 0 50 0 3 55
      (λ r. pure 0) [] (λ fun local s w. refl) (ground arith) (omega arith) refl refl refl

-- The operation is performed, and its resumption is released when the top frame is at 300.
abbrev asked : ResumeEnv
asked = record { local = 0; result = 0; unwind = true }

abbrev yielding : Code (List ℕ) ℕ
yielding s w = perform_resumed 10 s.frame_top asked (record s { frame_top = 300 }) w

release_example :
    (t : State) × (handle_around
        (with_unwind calls)
        10
        7
        8
        9
        (within (with_unwind calls) layers yielding)
        start
        []
      ≡ returned 0 t (201 ∷ 202 ∷ []))
    × (t.frame_top ≡ 300)
release_example =
    release_lem calls (λ fun local w. fun ∷ w) 10 7 8 9 layers start
      (record inner { frame_top = 300 }) asked yielding [] [] (λ fun local s w. refl) (ground arith)
      refl (omega arith) (λ x m. refl) refl

-- The finally function of this call logs the top frame.
abbrev seeing : Calls (List ℕ)
seeing = record calls { releasefun = λ fun local s w. returned tt s (s.frame_top ∷ w) }

finally_once_example :
    finally_around seeing 20 0 201 (throw (other 3)) start []
    ≡ thrown (other 3) (record (pushed (protecting 20 0 201) start) { frame_top = 100 }) (100 ∷ [])
finally_once_example =
    finally_once seeing 20 0 201 (throw (other 3)) start (pushed (protecting 20 0 201) start) [] []
      (omega arith) refl refl (inr (other 3))
      (record (pushed (protecting 20 0 201) start) { frame_top = 100 }) (100 ∷ []) refl refl

finally_twice_example :
    finally_around throwing 20 0 201 (pure 1) start []
    ≡ thrown
        (other 5)
        (record (pushed (protecting 20 0 201) start) { frame_top = 100 })
        (201 ∷ 201 ∷ [])
finally_twice_example =
    finally_twice throwing 20 0 201 (pure 1) start (pushed (protecting 20 0 201) start) [] []
      (omega arith) refl refl (λ fun local w. fun ∷ w) 1 (other 5) (λ s w. refl) refl
