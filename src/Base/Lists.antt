-- ===== src/Base/Lists.antt =====
-- Lists measured by native numbers, and predicates on lists by recursion.
use Prim.Native.Nat.{ℕ, suc, ◌+◌, zero, ◌-◌, ◌≤◌}
use mathlib.Core.Path.{◌≡◌, refl, ap}
use mathlib.Core.Bool.{Bool, true, false, ◌||◌}
use mathlib.Core.List.{List, [], ◌∷◌, ◌++◌}
use native.Mathlib.Omega.{arith}
use libmprompt.Base.Tests.{◌==◌, ==_refl}

module _ {ℓ} {A : Type ℓ} where
  abbrev pub length : List A → ℕ
  length [] = 0
  length (x ∷ xs) = suc (length xs)

  pub length-append : (xs ys : List A) → length (xs ++ ys) ≡ length xs + length ys
  length-append [] ys = omega arith
  length-append (x ∷ xs) ys = omega (arith, length-append xs ys)

-- The predicate holds of every element.
abbrev pub All {ℓ κ} : {A : Type ℓ} → (A → Type κ) → List A → Type κ
All P [] = Unit
All P (x ∷ xs) = P x × All P xs

pub All-append {ℓ κ} :
    {A : Type ℓ} (P : A → Type κ) (xs ys : List A) → All P xs → All P ys → All P (xs ++ ys)
All-append P [] ys hx hy = hy
All-append P (x ∷ xs) ys hx hy = (hx.0, All-append P xs ys hx.1 hy)

-- Membership of a number, as a test.
abbrev pub has : ℕ → List ℕ → Bool
has a [] = false
has a (x ∷ xs) = (x == a) || has a xs

-- No number occurs twice.
abbrev pub Distinct : List ℕ → Type 0
Distinct [] = Unit
Distinct (x ∷ xs) = (has x xs ≡ false) × Distinct xs

pub has-append : (a : ℕ) (xs ys : List ℕ) → has a (xs ++ ys) ≡ (has a xs || has a ys)
has-append a [] ys = refl
has-append a (x ∷ xs) ys = ground (arith, has-append a xs ys)

-- The parts of a list without repetition.
pub Distinct-left : (xs ys : List ℕ) → Distinct (xs ++ ys) → Distinct xs
Distinct-left [] ys d = tt
Distinct-left (x ∷ xs) ys d = (ground (arith, has-append x xs ys), Distinct-left xs ys d.1)

pub Distinct-right : (xs ys : List ℕ) → Distinct (xs ++ ys) → Distinct ys
Distinct-right [] ys d = d
Distinct-right (x ∷ xs) ys d = Distinct-right xs ys d.1

pub Distinct-apart :
    (a : ℕ) (xs ys : List ℕ) → Distinct (xs ++ ys) → has a xs ≡ true → has a ys ≡ false
Distinct-apart a [] ys d h = absurd (ground arith)
Distinct-apart a (x ∷ xs) ys d h = ground (arith, has-append x xs ys, Distinct-apart a xs ys d.1)

pub All-left {ℓ κ} : {A : Type ℓ} (P : A → Type κ) (xs ys : List A) → All P (xs ++ ys) → All P xs
All-left P [] ys h = tt
All-left P (x ∷ xs) ys h = (h.0, All-left P xs ys h.1)

pub All-right {ℓ κ} : {A : Type ℓ} (P : A → Type κ) (xs ys : List A) → All P (xs ++ ys) → All P ys
All-right P [] ys h = h
All-right P (x ∷ xs) ys h = All-right P xs ys h.1

pub All-of {κ} : {P : ℕ → Type κ} (xs : List ℕ) → ((x : ℕ) → has x xs ≡ true → P x) → All P xs
All-of [] f = tt
All-of (x ∷ xs) f = (f x (ground (arith, ==_refl x)), All-of xs (λ y i. f y (ground arith)))

-- A predicate on the elements may use that they are elements.
pub All-mono {κ μ} :
    (P : ℕ → Type κ) (Q : ℕ → Type μ) (xs : List ℕ)
    → ((x : ℕ) → has x xs ≡ true → P x → Q x)
    → All P xs
    → All Q xs
All-mono P Q [] f h = tt
All-mono P Q (x ∷ xs) f h =
    (f x (ground arith) h.0, All-mono P Q xs (λ y i. f y (ground arith)) h.1)

pub ne_of_has : (p x : ℕ) (xs : List ℕ) → has x xs ≡ true → has p xs ≡ false → (p == x) ≡ false
ne_of_has p x xs h k = ground arith

-- The parts of a chain cut at `p`: `p` is in neither.
pub Distinct-middle :
    (p : ℕ) (xs ys : List ℕ)
    → Distinct (xs ++ p ∷ ys)
    → (has p xs ≡ false) × (has p ys ≡ false) × Distinct xs × Distinct ys
Distinct-middle p [] ys d = (refl, d.0, tt, d.1)
Distinct-middle p (x ∷ xs) ys d =
    let r = Distinct-middle p xs ys d.1 in
    let e = has-append x xs (p ∷ ys) in (ground arith, r.1, (ground arith, r.2), r.3)

pub Distinct-snoc : (p : ℕ) (xs : List ℕ) → has p xs ≡ false → Distinct xs → Distinct (xs ++ p ∷ [])
Distinct-snoc p [] h d = (refl, tt)
Distinct-snoc p (x ∷ xs) h d =
    (ground (arith, has-append x xs (p ∷ [])), Distinct-snoc p xs (ground arith) d.1)

-- Moving one element to the front.
pub Distinct-move : (b : ℕ) (xs ys : List ℕ) → Distinct (xs ++ b ∷ ys) → Distinct (b ∷ (xs ++ ys))
Distinct-move b [] ys d = d
Distinct-move b (x ∷ xs) ys d =
    let r = Distinct-move b xs ys d.1 in
    ground (arith, has-append x xs (b ∷ ys), has-append x xs ys, has-append b xs ys)

pub Distinct-move_back :
    (b : ℕ) (xs ys : List ℕ) → Distinct (b ∷ (xs ++ ys)) → Distinct (xs ++ b ∷ ys)
Distinct-move_back b [] ys d = d
Distinct-move_back b (x ∷ xs) ys d =
    let e : has b (xs ++ ys) ≡ false = ground arith in
    let r = Distinct-move_back b xs ys (e, d.1.1) in
    (ground (arith, has-append x xs (b ∷ ys), has-append x xs ys), r)

abbrev pub take {ℓ} : {A : Type ℓ} → ℕ → List A → List A
take zero xs = []
take (suc n) [] = []
take (suc n) (x ∷ xs) = x ∷ take n xs

pub take_nil {ℓ} : {A : Type ℓ} (n : ℕ) → take {A = A} n [] ≡ []
take_nil zero = refl
take_nil (suc n) = refl

pub length-take_le {ℓ} : {A : Type ℓ} (n : ℕ) (xs : List A) → length (take n xs) ≤ n
length-take_le zero xs = omega arith
length-take_le (suc n) [] = omega arith
length-take_le (suc n) (x ∷ xs) = omega (arith, length-take_le n xs)

-- Enough is taken from the front, and the rest from behind.
pub take-append {ℓ} :
    {A : Type ℓ} (n : ℕ) (xs ys : List A)
    → take n (xs ++ ys) ≡ take n xs ++ take (n - length (take n xs)) ys
take-append {A} zero xs ys = refl
take-append {A} (suc n) [] ys = let whole : suc n - 0 ≡ suc n = omega arith in rw whole refl
take-append {A} (suc n) (x ∷ xs) ys =
    let shift : suc n - length (take (suc n) (x ∷ xs)) ≡ n - length (take n xs) = omega arith in
    ap (λ (l : List A). x ∷ l) (rw shift (take-append n xs ys))

abbrev pub drop {ℓ} : {A : Type ℓ} → ℕ → List A → List A
drop zero xs = xs
drop (suc n) [] = []
drop (suc n) (x ∷ xs) = drop n xs

pub drop_nil {ℓ} : {A : Type ℓ} (n : ℕ) → drop {A = A} n [] ≡ []
drop_nil zero = refl
drop_nil (suc n) = refl

-- What stands behind `p` is not in front of it.
pub Distinct-behind :
    (x p : ℕ) (xs ys : List ℕ)
    → Distinct (xs ++ p ∷ ys)
    → has x ys ≡ true
    → has x (xs ++ p ∷ []) ≡ false
Distinct-behind x p xs ys d h =
    ground
      (arith, has-append x xs (p ∷ []), Distinct-apart x xs (p ∷ ys) d, Distinct-middle p xs ys d)

-- Two lists with nothing in common, one put before the other.
pub Distinct-join :
    (p : ℕ) (xs ys : List ℕ)
    → Distinct (xs ++ p ∷ [])
    → Distinct ys
    → ((x : ℕ) → has x (xs ++ p ∷ []) ≡ true → has x ys ≡ false)
    → Distinct (xs ++ p ∷ ys)
Distinct-join p [] ys d e apart = (apart p (ground arith), e)
Distinct-join p (x ∷ xs) ys d e apart = (
  ground (arith, has-append x xs (p ∷ []), has-append x xs (p ∷ ys), apart x),
  Distinct-join p xs ys d.1 e (λ y i. apart y (ground arith)),
)
