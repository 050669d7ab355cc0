-- ===== src/Prompt/Machine/Balance.antt =====
-- No stack is lost over a run of src/mprompt/mprompt.c, and none is handed back twice.
use libmprompt.Base.{
  ◌≢◌, Bool, ◌↔◌, ℕ, suc, ◌+◌, ◌<◌, ◌≡◌, refl, true, List, [], ◌∷◌, has, map, Distinct, arith,
  ==_refl,
}
use libmprompt.Prompt.State.{State, done}
use libmprompt.Prompt.Free.{stacks_of}
use libmprompt.Prompt.Machine.{
  free, Machine, no_prompts, Action, Landing, Steps, no_more, and_then, run_all,
}
use libmprompt.Prompt.Machine.Represents.{Labels, Represents}
use libmprompt.Prompt.Machine.Simulation.{run-Step, no_prompts-Represents}
use libmprompt.Prompt.Machine.Stacks.{occurs, Accounts, all_given, Step-Accounts}

stacks_of-agree :
    (s : State) (f : ℕ → ℕ) (xs : List ℕ)
    → ((x : ℕ) → has x xs ≡ true → (s.prompts x).gstack ≡ f x)
    → stacks_of s xs ≡ map f xs
stacks_of-agree s f [] same = refl
stacks_of-agree s f (x ∷ xs) same =
    rw (same x (ground (arith, ==_refl x)), stacks_of-agree s f xs (λ y i. same y (ground arith)))
      refl

no_prompts-Accounts : Accounts no_prompts [] []
no_prompts-Accounts = record {
  distinct = tt;
  places = λ x i. absurd (ground arith);
  all = λ x u. absurd (u refl);
  sums = λ g. refl;
}

module _ (debug : Bool) (return_ip resume_ip depth fuel : ℕ) (enough : depth < suc (suc fuel)) where
  run_all-Accounts :
      (s : State) (m n : Machine) (acts : List Action) (es : List Landing) (used given : List ℕ)
      → Represents debug return_ip resume_ip depth s m
      → Accounts m used given
      → Steps debug depth m acts es n
      → (t : State) × (run_all (suc (suc fuel)) acts s ≡ done es t)
        × Represents debug return_ip resume_ip depth t n
        × (left : List ℕ) × Accounts n left (all_given acts given)
  run_all-Accounts s m n acts es used given w a no_more = (s, refl, w, used, a)
  run_all-Accounts s m n acts es used given w a (and_then one rest) =
      let (t, runs, v) = run-Step debug return_ip resume_ip depth fuel enough s m _ _ _ w one in
      let (mid, b) = Step-Accounts debug return_ip resume_ip depth s m used given w a _ _ _ one in
      let (u, more, r, left, c) = run_all-Accounts t _ n _ _ mid _ v b rest in
      (u, rw (runs, more) refl, r, left, c)

-- Over any run that the abstract machine of the build allows, started without prompts and with one code
-- address for all return points and one for all resume points, every stack that prompts were
-- begun on is either the stack of a prompt that is still in use or has been handed back, as often as it
-- was given: none is lost, and none is handed back twice. `left` lists the prompts in use, each once.
pub stacks_balanced :
    (return_ip resume_ip depth fuel : ℕ) (s : State) (n : Machine) (acts : List Action)
    (es : List Landing) (g : ℕ)
    → depth < suc (suc fuel)
    → Labels return_ip resume_ip s
    → s.prompt_top ≡ 0
    → s.released ≡ []
    → Steps s.debug depth no_prompts acts es n
    → (t : State) × (run_all (suc (suc fuel)) acts s ≡ done es t)
      × (left : List ℕ) × (occurs g (stacks_of t left) + occurs g (map (λ r. r.0) t.released)
          ≡ occurs g (all_given acts []))
      × Distinct left
      × ((x : ℕ) → (has x left ≡ true) ↔ (n.place x ≢ free))
stacks_balanced return_ip resume_ip depth fuel s n acts es g f l top none_yet steps =
    let w = no_prompts-Represents return_ip resume_ip depth s l top none_yet in
    let (t, runs, r, left, a) =
      run_all-Accounts s.debug return_ip resume_ip depth fuel f s no_prompts n acts es [] [] w
        no_prompts-Accounts steps in
    let same = stacks_of-agree t n.stack_of left (λ x i. (r.used x (a.places x i)).gstack) in
    (t, runs, left, rw (same, r.released) (a.sums g), a.distinct, λ x. (a.places x, a.all x))
