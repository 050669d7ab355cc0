-- ===== src/Effect/Tests.antt =====
-- The theorems on effect handlers, applied to a stack of four frames, and of a mask on top of it.
use libmprompt.Base.{ℕ, ◌+◌, ◌≡◌, refl, inr, ◌⊎◌, true, false, some, [], ◌∷◌, arith, has, write}
use libmprompt.Effect.State.{State, Frame, frame_mask, frame_finally, op_tail, once, multi, pure}
use libmprompt.Effect.Find.{mpe_find}
use libmprompt.Effect.Perform.{
  Calls, Resume, ResumeEnv, value, yields, perform_yield_to, perform_resumed, mpe_perform,
}
use libmprompt.Effect.Resume.{resume}
use libmprompt.Effect.Search.{IsStack, mpe_find-ends}
use libmprompt.Effect.Nesting.{Reaches, mpe_find-masked}
use libmprompt.Effect.Tail.{under_state, perform_tail_lem}
use libmprompt.Effect.Masked.{mpe_find-masked_again}
use libmprompt.Effect.Capture.{yielded_frames, relinked, perform_resume_lem}
use libmprompt.Effect.Ownership.{given_up, life, owned, gone, env, to_unwind, resume_owned}

abbrev frame : (effect parent : ℕ) → Frame
frame effect parent = record {
  effect = effect;
  parent = parent;
  prompt = 7;
  hdef = 8;
  local = 9;
  under = 0;
  mask = 0;
  from = 0;
  fun = 0;
}

-- Handlers of the effects 50, 60 and 50, below a finally frame.
abbrev four : State
four = record {
  frames =
      write
        (write
          (write (write (write (λ x. frame 0 0) 10 (frame 50 0)) 20 (frame 60 10)) 30 (frame 50 20))
          40 (frame frame_finally 30))
        45 (record (frame frame_mask 40) { mask = 50 });
  frame_top = 40;
  hdefs = λ x. record {
    effect = 50;
    resultfun = 0;
    operations = λ i. record { opkind = op_tail; opfun = 11 };
  };
  debug = true;
}

-- A mask of the effect 50 on top.
abbrev masked : State
masked = record four { frame_top = 45 }

four-IsStack : IsStack four 40 (40 ∷ 30 ∷ 20 ∷ 10 ∷ [])
four-IsStack = record { chain = ground arith; each = ground arith }

above_30 : Reaches four 50 40 30 (40 ∷ [])
above_30 = record {
  chain = ground arith;
  passes = ground arith;
  ne_null = omega arith;
  handles = refl;
}

masked-above_30 : Reaches masked 50 40 30 (40 ∷ [])
masked-above_30 = record {
  chain = ground arith;
  passes = ground arith;
  ne_null = omega arith;
  handles = refl;
}

masked-above_10 : Reaches masked 50 20 10 (20 ∷ [])
masked-above_10 = record {
  chain = ground arith;
  passes = ground arith;
  ne_null = omega arith;
  handles = refl;
}

mpe_find-ends_example :
    (h : ℕ) × (mpe_find 9 60 four ≡ some h)
    × ((h ≡ 0) ⊎ ((has h (40 ∷ 30 ∷ 20 ∷ 10 ∷ []) ≡ true) × ((four.frames h).effect ≡ 60)))
mpe_find-ends_example = mpe_find-ends four 9 60 (40 ∷ 30 ∷ 20 ∷ 10 ∷ []) four-IsStack (omega arith)

mpe_find-masked_example : mpe_find 9 50 masked ≡ some 10
mpe_find-masked_example =
    mpe_find-masked masked 9 50 45 30 10 (40 ∷ []) (20 ∷ []) refl (omega arith) (omega arith) refl
      refl refl masked-above_30 masked-above_10 (omega arith)

mpe_find-masked_again_example :
    (mpe_find 9 50 masked ≡ some 10) × (mpe_find 9 50 (under_state masked 99 10) ≡ some 10)
mpe_find-masked_again_example =
    mpe_find-masked_again masked 9 50 99 45 30 10 (40 ∷ []) (20 ∷ []) refl (omega arith)
      (omega arith) (omega arith) refl refl refl masked-above_30 masked-above_10 (omega arith)
      (ground arith) (omega arith)

-- An operation clause that returns its argument and the handler's state, added.
abbrev calls : Calls
calls = record {
  opfun = λ fun r local arg. pure (local + arg);
  action = λ fun arg. pure arg;
  resultfun = λ fun local arg. pure arg;
  releasefun = λ fun local. pure tt;
}

perform_tail_example :
    (mpe_perform calls 9 99 50 0 5 four
      ≡ some ((0, value 14), record (under_state four 99 30) { frame_top = 40 }))
    × (mpe_find 8 60 (under_state four 99 30)
        ≡ mpe_find 7 60 (record (under_state four 99 30) { frame_top = 20 }))
perform_tail_example =
    perform_tail_lem calls four (under_state four 99 30) 9 7 99 50 60 0 5 30 14 (40 ∷ []) above_30
      (ground arith) (omega arith) (omega arith) (omega arith) (omega arith) refl refl refl

-- The resume happens under the frame 20 alone, whose parent is another one by now.
abbrev elsewhere : State
elsewhere = record four { frames = write four.frames 20 (frame 60 0); frame_top = 20 }

abbrev answer : ResumeEnv
answer = record { local = 77; result = 78; unwind = false }

perform_resume_example :
    let u = relinked elsewhere 30 40 answer in
    (perform_yield_to once 30 11 5 four ≡ some ((40, yields once 7 11 9 5), yielded_frames four 30))
    × IsStack (yielded_frames four 30) 20 (20 ∷ 10 ∷ [])
    × (perform_resumed 30 40 answer elsewhere ≡ some (value 78, u))
    × IsStack u 40 (40 ∷ 30 ∷ 20 ∷ [])
    × ((u.frames 30).local ≡ 77)
perform_resume_example =
    perform_resume_lem four elsewhere once 30 11 5 answer (40 ∷ []) (20 ∷ 10 ∷ []) (20 ∷ [])
      four-IsStack (λ x i. ground arith) (record { chain = ground arith; each = ground arith })
      (ground arith) (ground arith) refl

abbrev resumption : Resume
resumption = record { kind = multi; target = 5 }

resume_owned_example :
    life true resumption ((1, 2) ∷ (3, 4) ∷ []) (given_up true) (owned [])
    ≡ some (gone (resume to_unwind ∷ resume (env 3 4) ∷ resume (env 1 2) ∷ []))
resume_owned_example =
    resume_owned true resumption ((1, 2) ∷ (3, 4) ∷ []) (given_up true) [] (inr refl) (λ k. cc k)
