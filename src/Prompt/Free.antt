-- ===== src/Prompt/Free.antt =====
-- The loop of `mp_prompt_free`: it frees a captured chain, innermost prompt first.
use libmprompt.Base.{
  ℕ, zero, suc, ◌<◌, ◌≡◌, refl, ap, ◌∙◌, ◌≢◌, Bool, true, false, List, [], ◌∷◌, arith, ◌==◌,
  if◌then◌else◌, write, length, All, All-mono, has, Distinct, ne_of_has, ==_refl,
}
use mathlib.Core.Path.{ap₂}
use libmprompt.Base.Int.{dec}
use libmprompt.Base.Chain.{Chain, Chain-agree}
use libmprompt.Prompt.State.{State, done}
use libmprompt.Prompt.Ops.{free_from}
use libmprompt.Prompt.Chain.{parent_of}

abbrev pub LiveAt : State → ℕ → Type 0
LiveAt s x = (x ≢ 0) × ((s.prompts x).live ≡ true)

abbrev pub stacks_of : State → List ℕ → List ℕ
stacks_of s [] = []
stacks_of s (x ∷ xs) = (s.prompts x).gstack ∷ stacks_of s xs

-- The list of calls of `mp_gstack_free` after those on the stacks `gs` in turn.
abbrev pub release_all : Bool → List ℕ → List (ℕ × Bool) → List (ℕ × Bool)
release_all delay [] acc = acc
release_all delay (g ∷ gs) acc = release_all delay gs ((g, delay) ∷ acc)

-- The return and resume points, and what their jumps are checked against, are the same.
pub record SamePoints (s s' : State) : Type 0 where
  pub returns : s'.returns ≡ s.returns
  pub resumes : s'.resumes ≡ s.resumes
  pub return_label : s'.return_label ≡ s.return_label
  pub resume_label : s'.resume_label ≡ s.resume_label
  pub cookie : s'.cookie ≡ s.cookie
  pub debug : s'.debug ≡ s.debug

-- `s'` is `s` with the prompts `xs` freed, their stacks handed back in that order.
pub record Freed (delay : Bool) (xs : List ℕ) (s s' : State) : Type 0 where
  pub stacks : s'.released ≡ release_all delay (stacks_of s xs) s.released
  pub gone : All (λ x. (s'.prompts x).live ≡ false) xs
  pub others : (x : ℕ) → has x xs ≡ false → s'.prompts x ≡ s.prompts x
  pub same_top : s'.prompt_top ≡ s.prompt_top
  pub same_points : SamePoints s s'

-- One round of the loop: `x` is freed, and its parent loses a reference.
after_round : State → Bool → (x : ℕ) → State
after_round s delay x =
    let r = s.prompts x in
    let freed = record s {
      prompts = write s.prompts x (record r { live = false });
      released = (r.gstack, delay) ∷ s.released;
    } in
    let up = s.prompts r.parent in
    if r.parent == 0 then freed else record freed {
      prompts = write freed.prompts r.parent (record up { refcount = dec up.refcount });
    }

free_from_round :
    (s : State) (fuel x : ℕ) (xs : List ℕ) (delay : Bool)
    → s.debug ≡ false
    → LiveAt s x
    → has x xs ≡ false
    → Chain (parent_of s) (parent_of s x) xs 0
    → All (LiveAt s) xs
    → free_from (suc fuel) x delay s ≡ free_from fuel (parent_of s x) delay (after_round s delay x)
unfolding free_from after_round
free_from_round s fuel x [] delay d l out c a = ground arith
free_from_round s fuel x (y ∷ ys) delay d l out c a = ground arith

-- What one round leaves of the rest of the chain.
module _ (s : State) (x : ℕ) (delay : Bool) where
  round-keeps :
      (y : ℕ) → (x == y) ≡ false → ((after_round s delay x).prompts y).parent ≡ (s.prompts y).parent
  unfolding after_round
  round-keeps y h = ground arith

  round-live :
      (y : ℕ) → (x == y) ≡ false → ((after_round s delay x).prompts y).live ≡ (s.prompts y).live
  unfolding after_round
  round-live y h = ground arith

  round-gstack : (y : ℕ) → ((after_round s delay x).prompts y).gstack ≡ (s.prompts y).gstack
  unfolding after_round
  round-gstack y = ground arith

  round-other :
      (y : ℕ)
      → (x == y) ≡ false
      → (parent_of s x == y) ≡ false
      → (after_round s delay x).prompts y ≡ s.prompts y
  unfolding after_round
  round-other y h k = ground arith

  round-null : (x == 0) ≡ false → (after_round s delay x).prompts 0 ≡ s.prompts 0
  unfolding after_round
  round-null h = ground arith

  round-gone : parent_of s x ≢ x → ((after_round s delay x).prompts x).live ≡ false
  unfolding after_round
  round-gone h = ground arith

  stacks_of-round : (xs : List ℕ) → stacks_of (after_round s delay x) xs ≡ stacks_of s xs
  stacks_of-round [] = refl
  stacks_of-round (y ∷ ys) = rw (round-gstack y, stacks_of-round ys)

-- The parent of the first prompt is the next one or NULL.
next_apart :
    (s : State) (x y : ℕ) (xs : List ℕ)
    → Chain (parent_of s) (parent_of s x) xs 0
    → y ≢ 0
    → has y xs ≡ false
    → (parent_of s x == y) ≡ false
next_apart s x y [] c h out = ground arith
next_apart s x y (z ∷ zs) c h out = ground arith

round-released :
    (s : State) (x : ℕ) (delay : Bool)
    → (after_round s delay x).released ≡ ((s.prompts x).gstack, delay) ∷ s.released
unfolding after_round
round-released s x delay = ground arith

round-top : (s : State) (x : ℕ) (delay : Bool) → (after_round s delay x).prompt_top ≡ s.prompt_top
unfolding after_round
round-top s x delay = ground arith

round-points : (s : State) (x : ℕ) (delay : Bool) → SamePoints s (after_round s delay x)
unfolding after_round
round-points s x delay = record {
  returns = ground arith;
  resumes = ground arith;
  return_label = ground arith;
  resume_label = ground arith;
  cookie = ground arith;
  debug = ground arith;
}

pub SamePoints-trans : (s t u : State) → SamePoints s t → SamePoints t u → SamePoints s u
SamePoints-trans s t u a b = record {
  returns = b.returns ∙ a.returns;
  resumes = b.resumes ∙ a.resumes;
  return_label = b.return_label ∙ a.return_label;
  resume_label = b.resume_label ∙ a.resume_label;
  cookie = b.cookie ∙ a.cookie;
  debug = b.debug ∙ a.debug;
}

-- A round leaves every prompt alone that is not on the rest of the chain.
round-others :
    (s : State) (x : ℕ) (delay : Bool) (xs : List ℕ) (y : ℕ)
    → (x == y) ≡ false
    → Chain (parent_of s) (parent_of s x) xs 0
    → has y xs ≡ false
    → (after_round s delay x).prompts y ≡ s.prompts y
round-others s x delay xs zero ne c out = round-null s x delay ne
round-others s x delay xs (suc y) ne c out =
    round-other s x delay (suc y) ne (next_apart s x (suc y) xs c (ground arith) out)

Freed-cons :
    (s : State) (x : ℕ) (delay : Bool) (xs : List ℕ) (s' : State)
    → x ≢ 0
    → has x xs ≡ false
    → Chain (parent_of s) (parent_of s x) xs 0
    → Freed delay xs (after_round s delay x) s'
    → Freed delay (x ∷ xs) s s'
Freed-cons s x delay xs s' h out c fr =
    let apart = next_apart s x x xs c h out in
    record {
      stacks =
          fr.stacks
          ∙ ap₂ (release_all delay) (stacks_of-round s x delay xs) (round-released s x delay);
      gone = (
        ap (λ r. r.live) (fr.others x out) ∙ round-gone s x delay (ground (arith, ==_refl x)),
        fr.gone,
      );
      others = λ y o.
          fr.others y (ground arith) ∙ round-others s x delay xs y (ground arith) c (ground arith);
      same_top = fr.same_top ∙ round-top s x delay;
      same_points =
          SamePoints-trans s (after_round s delay x) s' (round-points s x delay) fr.same_points;
    }

-- The loop frees the whole chain, innermost prompt first.
pub free_from_lem :
    (s : State) (fuel a : ℕ) (xs : List ℕ) (delay : Bool)
    → s.debug ≡ false
    → Chain (parent_of s) a xs 0
    → All (LiveAt s) xs
    → Distinct xs
    → length xs < fuel
    → (s' : State) × (free_from fuel a delay s ≡ done tt s') × Freed delay xs s s'
free_from_lem s zero a xs delay d c l u f = absurd (omega arith)
free_from_lem s (suc fuel) a [] delay d c l u f = (
  s,
  unfold free_from in rw c,
  record {
    stacks = refl;
    gone = tt;
    others = λ x k. refl;
    same_top = refl;
    same_points = record {
      returns = refl;
      resumes = refl;
      return_label = refl;
      resume_label = refl;
      cookie = refl;
      debug = refl;
    };
  },
)
free_from_lem s (suc fuel) a (x ∷ xs) delay d (e, c) l u f =
    let t = after_round s delay x in
    let keep : (y : ℕ) → has y xs ≡ true → (x == y) ≡ false = λ y h. ne_of_has x y xs h u.0 in
    let td : t.debug ≡ false = (round-points s x delay).debug ∙ d in
    let tc : Chain (parent_of t) (parent_of s x) xs 0 =
      Chain-agree (parent_of s) (parent_of t) (parent_of s x) 0 xs
        (λ y h. round-keeps s x delay y (keep y h)) c in
    let tl : All (LiveAt t) xs =
      All-mono (LiveAt s) (LiveAt t) xs (λ y h b. (b.0, round-live s x delay y (keep y h) ∙ b.1))
        l.1 in
    let (s', run, fr) = free_from_lem t fuel (parent_of s x) xs delay td tc tl u.1 (omega arith) in
    (
      s',
      rw (e, free_from_round s fuel x xs delay d l.0 u.0 c l.1) run,
      Freed-cons s x delay xs s' l.0.0 u.0 c fr,
    )
