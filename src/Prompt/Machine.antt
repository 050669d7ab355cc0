-- ===== src/Prompt/Machine.antt =====
-- What the prompts of src/mprompt/mprompt.c promise to once resumptions: an abstract machine of chains
-- without pointers, reference counts, jump buffers or guards, and the runs of the code that it describes.
-- An action is a call of `mp_prompt`, `mp_yield`, `mp_resume` or `mp_resume_drop`, or the end of a prompt's
-- function; it is run up to where control lands, as the assembler jump and the frame that it lands in go on.
-- A debug build drops only a prompt that has captured no other: it stops at the drop of the others.
use libmprompt.Base.{
  ℕ, suc, ◌+◌, ◌<◌, ◌≤◌, ◌≡◌, ◌≢◌, List, [], ◌∷◌, ◌++◌, Option, none, some, has, length, write, map,
  if◌then◌else◌, Bool, true, false,
}
use libmprompt.Prompt.State.{M, pure, ◌>>=◌, ◌>>◌}
use libmprompt.Prompt.Ops.{prompt_drop_internal}
use libmprompt.Prompt.Free.{release_all}
use libmprompt.Prompt.Dispatch.{resume_once}
use libmprompt.Prompt.Switch.{
  Jump, to_return, to_resume, enter_stack, Next, call_yielded, return_value, rethrow, mp_prompt,
  yield_to, yield_resumed, stack_entry_return, stack_entry_exception, exec_yield_fun,
}
pub mod Represents
pub mod Begin
pub mod Yielding
pub mod Resuming
pub mod Ending
pub mod Dropping
pub mod Simulation
pub mod Misuse
pub mod Stacks
pub mod Balance
mod Tests

-- Where a prompt is: in no use, on the current chain, or on the chain that a suspended prompt holds.
pub data Place : Type 0 where
  free running : Place
  held_by : ℕ → Place

-- `captured q` is the chain above the suspended prompt `q`. `entered_at` is the return point that a
-- prompt was entered or resumed from last, `stopped_at` the resume point that it yielded at last.
-- `stack_of` is a prompt's stack, and `released` lists the stacks handed back to `mp_gstack_free`, the latest
-- first, with its `delay` argument.
pub record Machine : Type 0 where
  pub active : List ℕ
  pub captured : ℕ → Option (List ℕ)
  pub place : ℕ → Place
  pub entered_at : ℕ → ℕ
  pub stopped_at : ℕ → ℕ
  pub stack_of : ℕ → ℕ
  pub released : List (ℕ × Bool)

abbrev pub no_prompts : Machine
no_prompts = record {
  active = [];
  captured = λ q. none;
  place = λ x. free;
  entered_at = λ x. 0;
  stopped_at = λ x. 0;
  stack_of = λ x. 0;
  released = [];
}

abbrev pub mark : List ℕ → Place → (ℕ → Place) → ℕ → Place
mark xs v f x = if has x xs then v else f x

pub data Action : Type 0 where
  begins : (gstack p env ret : ℕ) → Action
  yields : (p fun arg res : ℕ) → Action
  resumes : (p value ret : ℕ) → Action
  ends : (p result : ℕ) → Action
  throws : (p : ℕ) → Action
  drops : (p : ℕ) → Action

-- Where control lands.
pub data Landing : Type 0 where
  enters : (p env : ℕ) → Landing
  lands : (ret : ℕ) → Next → Landing
  continues : (res value : ℕ) → Landing
  goes_on : Landing

abbrev pub begun : Machine → (gstack p ret : ℕ) → Machine
begun m gstack p ret = record m {
  active = p ∷ m.active;
  place = mark (p ∷ []) running m.place;
  entered_at = write m.entered_at p ret;
  stack_of = write m.stack_of p gstack;
}

abbrev pub suspended : Machine → (p res : ℕ) → (xs ys : List ℕ) → Machine
suspended m p res xs ys = record m {
  active = ys;
  captured = write m.captured p (some xs);
  place = mark (xs ++ p ∷ []) (held_by p) m.place;
  stopped_at = write m.stopped_at p res;
}

abbrev pub restarted : Machine → (p ret : ℕ) → List ℕ → Machine
restarted m p ret xs = record m {
  active = xs ++ p ∷ m.active;
  captured = write m.captured p none;
  place = mark (xs ++ p ∷ []) running m.place;
  entered_at = write m.entered_at p ret;
}

abbrev pub ended : Machine → (p : ℕ) → (delay : Bool) → List ℕ → Machine
ended m p delay ys = record m {
  active = ys;
  place = mark (p ∷ []) free m.place;
  released = (m.stack_of p, delay) ∷ m.released;
}

abbrev pub dropped : Machine → (p : ℕ) → List ℕ → Machine
dropped m p xs = record m {
  captured = write m.captured p none;
  place = mark (xs ++ p ∷ []) free m.place;
  released = release_all false (map m.stack_of (xs ++ p ∷ [])) m.released;
}

-- The steps of the machine of a debug or a release build whose chains are at most `depth` prompts long.
pub data Step (debug : Bool) (depth : ℕ) (m : Machine) : Action → Landing → Machine → Type 0 where
  begins_new :
      {gstack p env ret : ℕ}
      → gstack ≢ 0
      → p ≢ 0
      → ret ≢ 0
      → m.place p ≡ free
      → length m.active < depth
      → Step debug depth m (begins gstack p env ret) (enters p env) (begun m gstack p ret)
  yields_to :
      {p fun arg res : ℕ}
      → (xs ys : List ℕ) → m.active ≡ xs ++ p ∷ ys
      → res ≢ 0
      → Step debug depth m
          (yields p fun arg res)
          (lands (m.entered_at p) (call_yielded fun p arg))
          (suspended m p res xs ys)
  resumes_held :
      {p value ret : ℕ}
      → (xs : List ℕ) → m.captured p ≡ some xs
      → ret ≢ 0
      → length (xs ++ p ∷ m.active) ≤ depth
      → Step debug depth m
          (resumes p value ret)
          (continues (m.stopped_at p) value)
          (restarted m p ret xs)
  ends_top :
      {p result : ℕ}
      → (ys : List ℕ) → m.active ≡ p ∷ ys
      → Step debug depth m
          (ends p result)
          (lands (m.entered_at p) (return_value result))
          (ended m p false ys)
  throws_top :
      {p : ℕ}
      → (ys : List ℕ) → m.active ≡ p ∷ ys
      → Step debug depth m (throws p) (lands (m.entered_at p) rethrow) (ended m p true ys)
  drops_lone :
      {p : ℕ} → m.captured p ≡ some [] → Step debug depth m (drops p) goes_on (dropped m p [])
  drops_held :
      {p : ℕ}
      → (xs : List ℕ) → debug ≡ false
      → m.captured p ≡ some xs
      → Step debug depth m (drops p) goes_on (dropped m p xs)

pub data Steps (debug : Bool) (depth : ℕ)
    : Machine → List Action → List Landing → Machine → Type 0 where
  no_more : {m : Machine} → Steps debug depth m [] [] m
  and_then :
      {m m' n : Machine} {a : Action} {e : Landing} {acts : List Action} {es : List Landing}
      → Step debug depth m a e m'
      → Steps debug depth m' acts es n
      → Steps debug depth m (a ∷ acts) (e ∷ es) n

-- What runs after a jump of the code for the prompt `p`.
abbrev pub land : (fuel p : ℕ) → Jump → M Landing
land fuel p (to_return ret) = do next ← exec_yield_fun fuel ret p; pure (lands ret next)
land fuel p (to_resume res) = do value ← yield_resumed fuel p res; pure (continues res value)
land fuel p (enter_stack q env) = pure (enters q env)

abbrev pub run : (fuel : ℕ) → Action → M Landing
run fuel (begins gstack p env ret) = do j ← mp_prompt gstack p env ret; land fuel p j
run fuel (yields p fun arg res) = do j ← yield_to fuel p fun arg res; land fuel p j
run fuel (resumes p value ret) = do j ← resume_once p value ret; land fuel p j
run fuel (ends p result) = do j ← stack_entry_return fuel p result; land fuel p j
run fuel (throws p) = do j ← stack_entry_exception fuel p; land fuel p j
run fuel (drops p) = prompt_drop_internal fuel p false >> pure goes_on

abbrev pub run_all : (fuel : ℕ) → List Action → M (List Landing)
run_all fuel [] = pure []
run_all fuel (a ∷ acts) = do e ← run fuel a; es ← run_all fuel acts; pure (e ∷ es)
