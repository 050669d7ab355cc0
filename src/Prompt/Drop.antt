-- ===== src/Prompt/Drop.antt =====
-- `mp_prompt_drop` and `mp_prompt_drop_delayed`: what a reference to a suspended prompt frees.
use mathlib.Core.Path.{ap₂}
use libmprompt.Base.{
  ℕ, suc, ◌+◌, ◌<◌, ◌≡◌, refl, ◌∙◌, Bool, true, false, List, [], ◌∷◌, ◌++◌, arith, ◌==◌, write,
  length, length-append, All, All-mono, All-append, has, has-append, ne_of_has, ==_refl,
}
use libmprompt.Base.Int.{pos, dec}
use libmprompt.Base.Chain.{Chain, Chain-agree}
use libmprompt.Prompt.State.{State, done, fault}
use libmprompt.Prompt.Ops.{free_from, prompt_drop_internal}
use libmprompt.Prompt.Chain.{
  parent_of, ActiveAt, IsSuspended, IsActive, Chain-frame, ActiveAt-frame,
}
use libmprompt.Prompt.Free.{
  SamePoints, SamePoints-trans, LiveAt, stacks_of, release_all, Freed, free_from_lem,
}

-- The state after the decrement of `mp_prompt_drop_internal`.
unfoldable pub decremented : State → ℕ → State
decremented s p =
    let r = s.prompts p in
    record s { prompts = write s.prompts p (record r { refcount = dec r.refcount }) }

module _ (s : State) (p : ℕ) where
  decremented-parent : (x : ℕ) → parent_of (decremented s p) x ≡ parent_of s x
  unfolding decremented
  decremented-parent x = ground arith

  decremented-live : (x : ℕ) → ((decremented s p).prompts x).live ≡ (s.prompts x).live
  unfolding decremented
  decremented-live x = ground arith

  decremented-gstack : (x : ℕ) → ((decremented s p).prompts x).gstack ≡ (s.prompts x).gstack
  unfolding decremented
  decremented-gstack x = ground arith

  decremented-other : (x : ℕ) → (p == x) ≡ false → (decremented s p).prompts x ≡ s.prompts x
  unfolding decremented
  decremented-other x h = ground arith

  decremented-globals :
      ((decremented s p).released ≡ s.released)
      × ((decremented s p).prompt_top ≡ s.prompt_top)
      × ((decremented s p).debug ≡ s.debug)
  unfolding decremented
  decremented-globals = (refl, refl, refl)

  stacks_of-decremented : (xs : List ℕ) → stacks_of (decremented s p) xs ≡ stacks_of s xs
  stacks_of-decremented [] = refl
  stacks_of-decremented (y ∷ ys) = rw (decremented-gstack y, stacks_of-decremented ys)

  decremented-points : SamePoints s (decremented s p)
  unfolding decremented
  decremented-points = record {
    returns = refl;
    resumes = refl;
    return_label = refl;
    resume_label = refl;
    cookie = refl;
    debug = refl;
  }

  Freed-decremented :
      (delay : Bool) (xs : List ℕ) (s' : State)
      → has p xs ≡ true
      → Freed delay xs (decremented s p) s'
      → Freed delay xs s s'
  Freed-decremented delay xs s' i fr = record {
    stacks = fr.stacks ∙ ap₂ (release_all delay) (stacks_of-decremented xs) decremented-globals.0;
    gone = fr.gone;
    others =
        λ x out. fr.others x out ∙ decremented-other x ((ground (arith, ne_of_has x p xs i out)));
    same_top = fr.same_top ∙ decremented-globals.1;
    same_points = SamePoints-trans s (decremented s p) s' decremented-points fr.same_points;
  }

  prompt_drop_run :
      (fuel : ℕ) (xs : List ℕ) (delay : Bool)
      → IsSuspended s p xs
      → (s.prompts p).refcount ≡ pos 1
      → prompt_drop_internal fuel p delay s
        ≡ free_from fuel (s.prompts p).top delay (decremented s p)
  unfolding prompt_drop_internal decremented
  prompt_drop_run fuel xs delay v c = ground arith

-- The last reference frees the prompt and all that it has captured, in a release build: the stacks
-- go back innermost first, and no other prompt changes.
pub prompt_drop_last :
    (s : State) (fuel p : ℕ) (xs : List ℕ) (delay : Bool)
    → s.debug ≡ false
    → IsSuspended s p xs
    → (s.prompts p).refcount ≡ pos 1
    → length xs + 1 < fuel
    → (s' : State) × (prompt_drop_internal fuel p delay s ≡ done tt s')
      × Freed delay (xs ++ p ∷ []) s s'
prompt_drop_last s fuel p xs delay d v c f =
    let t = decremented s p in
    let all = xs ++ p ∷ [] in
    let tc : Chain (parent_of t) (s.prompts p).top all 0 =
      Chain-agree (parent_of s) (parent_of t) (s.prompts p).top 0 all
        (λ y h. decremented-parent s p y) v.chain in
    let sl : All (LiveAt s) all =
      All-append (LiveAt s) xs (p ∷ [])
        (All-mono (ActiveAt s) (LiveAt s) xs (λ y h b. (b.0, b.1)) v.above)
        ((v.ne_null, v.live), tt) in
    let tl : All (LiveAt t) all =
      All-mono (LiveAt s) (LiveAt t) all (λ y h b. (b.0, decremented-live s p y ∙ b.1)) sl in
    let (s', run, fr) =
      free_from_lem t fuel (s.prompts p).top all delay ((decremented-globals s p).2 ∙ d) tc tl
        v.distinct (omega (arith, length-append xs (p ∷ []))) in
    (
      s',
      prompt_drop_run s p fuel xs delay v c ∙ run,
      Freed-decremented s p delay all s' (ground (arith, has-append p xs (p ∷ []), ==_refl p)) fr,
    )

-- Any build drops the last reference to a prompt that has captured nothing above itself: as when
-- its function has returned.
pub prompt_drop_single :
    (s : State) (fuel p : ℕ) (delay : Bool)
    → IsSuspended s p []
    → (s.prompts p).refcount ≡ pos 1
    → (s' : State) × (prompt_drop_internal (suc (suc fuel)) p delay s ≡ done tt s')
      × (s'.released ≡ ((s.prompts p).gstack, delay) ∷ s.released)
      × ((s'.prompts p).live ≡ false)
      × (s'.prompt_top ≡ s.prompt_top)
      × ((x : ℕ) → (p == x) ≡ false → s'.prompts x ≡ s.prompts x)
      × SamePoints s s'
unfolding free_from decremented
prompt_drop_single s fuel p delay v c =
    let r = s.prompts p in
    let s' : State = record s {
      prompts =
          write (decremented s p).prompts p (record r { refcount = dec r.refcount; live = false });
      released = (r.gstack, delay) ∷ s.released;
    } in
    (
      s',
      prompt_drop_run s p (suc (suc fuel)) [] delay v c ∙ ground arith,
      refl,
      ground arith,
      refl,
      λ x h. ground arith,
      record {
        returns = refl;
        resumes = refl;
        return_label = refl;
        resume_label = refl;
        cookie = refl;
        debug = refl;
      },
    )

-- Every other reference is only counted.
pub prompt_drop_shared :
    (s : State) (fuel p n : ℕ) (delay : Bool)
    → (s.prompts p).live ≡ true
    → (s.prompts p).refcount ≡ pos (suc (suc n))
    → (prompt_drop_internal fuel p delay s ≡ done tt (decremented s p))
      × (((decremented s p).prompts p).refcount ≡ pos (suc n))
unfolding prompt_drop_internal decremented
prompt_drop_shared s fuel p n delay l c = ground arith

-- A debug build stops at an assertion when the last reference to a prompt is dropped that has
-- captured another prompt: the loop starts at the captured top, which its child still counts.
pub prompt_drop_asserts :
    (s : State) (fuel p x : ℕ) (xs : List ℕ) (delay : Bool)
    → s.debug ≡ true
    → IsSuspended s p (x ∷ xs)
    → (s.prompts p).refcount ≡ pos 1
    → (s.prompts x).refcount ≡ pos 1
    → prompt_drop_internal (suc fuel) p delay s ≡ fault
unfolding free_from decremented
prompt_drop_asserts s fuel p x xs delay d v c cx =
    prompt_drop_run s p (suc fuel) (x ∷ xs) delay v c
    ∙ ground (arith, has-append x xs (p ∷ []), ==_refl p)

-- The prompts that are not freed are still the current chain.
pub Freed-IsActive :
    (s t : State) (zs ys : List ℕ) (delay : Bool)
    → Freed delay zs s t
    → ((x : ℕ) → has x ys ≡ true → has x zs ≡ false)
    → IsActive s ys
    → IsActive t ys
Freed-IsActive s t zs ys delay f apart v =
    let same : (x : ℕ) → has x ys ≡ true → t.prompts x ≡ s.prompts x =
      λ x i. f.others x (apart x i) in
    record {
      chain = rw f.same_top (Chain-frame s t s.prompt_top 0 ys same v.chain);
      each = ActiveAt-frame s t ys same v.each;
      distinct = v.distinct;
    }
