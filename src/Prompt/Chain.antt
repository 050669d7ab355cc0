-- ===== src/Prompt/Chain.antt =====
-- What the prompt chain of src/mprompt/mprompt.c is: a list of prompts, innermost first. A chain is
-- active (from the thread's top down to NULL) or captured by a suspended prompt.
use libmprompt.Base.{ℕ, ◌≡◌, ap, ◌≢◌, true, List, [], ◌∷◌, ◌++◌, All, All-mono, has, Distinct}
use libmprompt.Base.Chain.{Chain, Chain-agree}
use libmprompt.Prompt.State.{State}

abbrev pub parent_of : State → ℕ → ℕ
parent_of s x = (s.prompts x).parent

-- An allocated prompt in the active state.
abbrev pub ActiveAt : State → ℕ → Type 0
ActiveAt s x = (x ≢ 0) × ((s.prompts x).live ≡ true) × ((s.prompts x).top ≡ 0)

-- The prompts of the current execution stack are `xs`, the innermost first.
pub record IsActive (s : State) (xs : List ℕ) : Type 0 where
  pub chain : Chain (parent_of s) s.prompt_top xs 0
  pub each : All (ActiveAt s) xs
  pub distinct : Distinct xs

-- The suspended prompt `p` has captured the prompts `xs` above itself, the innermost first.
pub record IsSuspended (s : State) (p : ℕ) (xs : List ℕ) : Type 0 where
  pub chain : Chain (parent_of s) (s.prompts p).top (xs ++ p ∷ []) 0
  pub above : All (ActiveAt s) xs
  pub ne_null : p ≢ 0
  pub live : (s.prompts p).live ≡ true
  pub top_ne : (s.prompts p).top ≢ 0
  pub distinct : Distinct (xs ++ p ∷ [])

-- A chain whose prompts two states agree on.
module _ (s s' : State) where
  pub Chain-frame :
      (a b : ℕ) (xs : List ℕ)
      → ((x : ℕ) → has x xs ≡ true → s'.prompts x ≡ s.prompts x)
      → Chain (parent_of s) a xs b
      → Chain (parent_of s') a xs b
  Chain-frame a b xs same c =
      Chain-agree (parent_of s) (parent_of s') a b xs (λ x h. ap (λ r. r.parent) (same x h)) c

  pub ActiveAt-frame :
      (xs : List ℕ)
      → ((x : ℕ) → has x xs ≡ true → s'.prompts x ≡ s.prompts x)
      → All (ActiveAt s) xs
      → All (ActiveAt s') xs
  ActiveAt-frame xs same h = All-mono (ActiveAt s) (ActiveAt s') xs (λ x i a. rw (same x i) a) h
