-- ===== src/Prompt/Machine/Simulation.antt =====
-- Every run of the abstract machine is a run of src/mprompt/mprompt.c.
use libmprompt.Base.{Bool, ℕ, suc, ◌≡◌, ◌<◌, refl, List, [], arith}
use libmprompt.Prompt.State.{State, done}
use libmprompt.Prompt.Machine.{
  Machine, no_prompts, Action, Landing, Step, begins_new, yields_to, resumes_held, ends_top,
  throws_top, drops_lone, drops_held, Steps, no_more, and_then, run, run_all,
}
use libmprompt.Prompt.Machine.Represents.{Labels, Represents}
use libmprompt.Prompt.Machine.Begin.{begins_lem}
use libmprompt.Prompt.Machine.Yielding.{yields_lem}
use libmprompt.Prompt.Machine.Resuming.{resumes_lem}
use libmprompt.Prompt.Machine.Ending.{ends_lem, throws_lem}
use libmprompt.Prompt.Machine.Dropping.{drops_lone_lem, drops_held_lem}

module _ (debug : Bool) (return_ip resume_ip depth fuel : ℕ) (enough : depth < suc (suc fuel)) where
  pub run-Step :
      (s : State) (m n : Machine) (a : Action) (e : Landing)
      → Represents debug return_ip resume_ip depth s m
      → Step debug depth m a e n
      → (t : State) × (run (suc (suc fuel)) a s ≡ done e t)
        × Represents debug return_ip resume_ip depth t n
  run-Step s m n a e w (begins_new hg hp hr unused short) =
      begins_lem debug return_ip resume_ip depth s m _ _ _ w unused (suc (suc fuel)) _ hg hp hr
        short
  run-Step s m n a e w (yields_to xs ys cut ne) =
      yields_lem debug return_ip resume_ip depth s m _ xs ys w cut _ _ _ ne (suc (suc fuel)) enough
  run-Step s m n a e w (resumes_held xs cap ne short) =
      resumes_lem debug return_ip resume_ip depth s m _ xs w cap _ _ (suc (suc fuel)) enough ne
        short
  run-Step s m n a e w (ends_top ys top) =
      ends_lem debug return_ip resume_ip depth s m _ w ys top fuel _
  run-Step s m n a e w (throws_top ys top) =
      throws_lem debug return_ip resume_ip depth s m _ w ys top fuel
  run-Step s m n a e w (drops_lone cap) =
      drops_lone_lem debug return_ip resume_ip depth s m _ fuel w cap
  run-Step s m n a e w (drops_held xs release cap) =
      drops_held_lem debug return_ip resume_ip depth s m _ xs w cap (suc (suc fuel)) release enough

  run_all-Steps :
      (s : State) (m n : Machine) (acts : List Action) (es : List Landing)
      → Represents debug return_ip resume_ip depth s m
      → Steps debug depth m acts es n
      → (t : State) × (run_all (suc (suc fuel)) acts s ≡ done es t)
        × Represents debug return_ip resume_ip depth t n
  run_all-Steps s m n acts es w no_more = (s, refl, w)
  run_all-Steps s m n acts es w (and_then one rest) =
      let (t, runs, v) = run-Step s m _ _ _ w one in
      let (u, more, r) = run_all-Steps t _ n _ _ v rest in (u, rw (runs, more) refl, r)

pub no_prompts-Represents :
    (return_ip resume_ip depth : ℕ) (s : State)
    → Labels return_ip resume_ip s
    → s.prompt_top ≡ 0
    → s.released ≡ []
    → Represents s.debug return_ip resume_ip depth s no_prompts
no_prompts-Represents return_ip resume_ip depth s l top none_yet = record {
  labels = l;
  active = record { chain = top; each = tt; distinct = tt };
  bounded = omega arith;
  marked = λ x i. absurd (ground arith);
  held = λ q xs c. absurd (ground arith);
  used = λ x u. absurd (u refl);
  released = none_yet;
  same_debug = refl;
  held_short = λ q xs c. absurd (ground arith);
}

-- Started without prompts, with the code after `mp_setjmp` at one address for all return points and at one
-- for all resume points, the code does what the abstract machine of its build allows: whatever calls and
-- ends the machine takes in a row with chains of at most `depth` prompts, the code takes them too, with
-- no assertion or checked jump failing, control lands where the machine says, with the same values, the same
-- stacks are handed back in the same order, and the memory stands for the machine's state.
pub run_all_lem :
    (return_ip resume_ip depth fuel : ℕ) (s : State) (n : Machine) (acts : List Action)
    (es : List Landing)
    → depth < suc (suc fuel)
    → Labels return_ip resume_ip s
    → s.prompt_top ≡ 0
    → s.released ≡ []
    → Steps s.debug depth no_prompts acts es n
    → (t : State) × (run_all (suc (suc fuel)) acts s ≡ done es t)
      × Represents s.debug return_ip resume_ip depth t n
run_all_lem return_ip resume_ip depth fuel s n acts es f l top none_yet =
    run_all-Steps s.debug return_ip resume_ip depth fuel f s no_prompts n acts es
      (no_prompts-Represents return_ip resume_ip depth s l top none_yet)
