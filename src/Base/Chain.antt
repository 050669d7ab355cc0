-- ===== src/Base/Chain.antt =====
-- Chains through memory: `next` leads from `a` through the addresses of a list to `b`.
use libmprompt.Base.Lists.{has}
use Prim.Native.Nat.{ℕ}
use mathlib.Core.Path.{◌≡◌}
use mathlib.Core.Bool.{true}
use mathlib.Core.List.{List, [], ◌∷◌, ◌++◌}
use native.Mathlib.Omega.{arith}

abbrev pub Chain : (ℕ → ℕ) → ℕ → List ℕ → ℕ → Type 0
Chain next a [] b = a ≡ b
Chain next a (x ∷ xs) b = (a ≡ x) × Chain next (next x) xs b

module _ (next : ℕ → ℕ) where
  -- A chain through two lists is cut between them.
  pub Chain-cut :
      (a b p : ℕ) (xs ys : List ℕ)
      → Chain next a (xs ++ p ∷ ys) b
      → Chain next a xs p × Chain next (next p) ys b
  Chain-cut a b p [] ys (e, c) = (e, c)
  Chain-cut a b p (x ∷ xs) ys (e, c) = let r = Chain-cut (next x) b p xs ys c in ((e, r.0), r.1)

  pub Chain-join :
      (a b p : ℕ) (xs ys : List ℕ)
      → Chain next a xs p
      → Chain next (next p) ys b
      → Chain next a (xs ++ p ∷ ys) b
  Chain-join a b p [] ys c d = (c, d)
  Chain-join a b p (x ∷ xs) ys (e, c) d = (e, Chain-join (next x) b p xs ys c d)

  -- A chain survives a change of `next` outside its addresses.
  pub Chain-agree :
      (next' : ℕ → ℕ) (a b : ℕ) (xs : List ℕ)
      → ((x : ℕ) → has x xs ≡ true → next' x ≡ next x)
      → Chain next a xs b
      → Chain next' a xs b
  Chain-agree next' a b [] same c = c
  Chain-agree next' a b (x ∷ xs) same (e, c) = (
    e,
    rw (same x (ground arith)) (Chain-agree next' (next x) b xs (λ y h. same y (ground arith)) c),
  )
