-- ===== src/Base/Bits.antt =====
-- The bit operations of the code: exclusive or with a cookie, and the tests and changes of the one
-- bit that tags a pointer. Each operation is unrolled by one binary digit at a time.
use Prim.Native.Nat.{ℕ, zero, suc, ◌+◌, ◌*◌, ◌/◌, ◌%◌, ◌≤◌, min, max, differ}
use Prim.Native.Nat.{bit_and, bit_or, bit_xor, digits}
use Prim.Native.Nat.{bit_and-bitwise, bit_or-bitwise, bit_xor-bitwise}
use mathlib.Core.Path.{◌≡◌, refl, ap}
use native.Mathlib.Omega.{arith}

-- The digits do not depend on the fuel, once that bounds the first operand.
enough_fuel :
    (z : ℕ → ℕ) (op : ℕ → ℕ → ℕ) (a n m b : ℕ)
    → a ≤ n
    → a ≤ m
    → digits z op n a b ≡ digits z op m a b
enough_fuel z op zero zero zero b p q = refl
enough_fuel z op zero zero (suc m) b p q = refl
enough_fuel z op zero (suc n) zero b p q = refl
enough_fuel z op zero (suc n) (suc m) b p q = refl
enough_fuel z op (suc a) zero m b p q = absurd (omega arith)
enough_fuel z op (suc a) (suc n) zero b p q = absurd (omega arith)
enough_fuel z op (suc a) (suc n) (suc m) b p q =
    rw (enough_fuel z op (suc a / 2) n m (b / 2) (omega arith) (omega arith))

pub xor_digit : (a b : ℕ) → bit_xor a b ≡ bit_xor (a / 2) (b / 2) * 2 + differ (a % 2) (b % 2)
xor_digit zero b = simp bit_xor-bitwise (omega arith)
xor_digit (suc a) b =
    simp bit_xor-bitwise (
      rw
        (enough_fuel (λ y. y) differ (suc a / 2) a (suc a / 2) (b / 2) (omega arith) (omega arith)))

pub and_digit : (a b : ℕ) → bit_and a b ≡ bit_and (a / 2) (b / 2) * 2 + min (a % 2) (b % 2)
and_digit zero b = simp bit_and-bitwise (omega arith)
and_digit (suc a) b =
    simp bit_and-bitwise
      (rw (enough_fuel (λ y. 0) min (suc a / 2) a (suc a / 2) (b / 2) (omega arith) (omega arith)))

pub or_digit : (a b : ℕ) → bit_or a b ≡ bit_or (a / 2) (b / 2) * 2 + max (a % 2) (b % 2)
or_digit zero b = simp bit_or-bitwise (omega arith)
or_digit (suc a) b =
    simp bit_or-bitwise
      (rw (enough_fuel (λ y. y) max (suc a / 2) a (suc a / 2) (b / 2) (omega arith) (omega arith)))

-- On single digits.
differ_twice : (x c : ℕ) → x ≤ 1 → c ≤ 1 → (differ x c ≤ 1) × (differ (differ x c) c ≡ x)
differ_twice zero zero p q = (omega arith, refl)
differ_twice zero (suc zero) p q = (omega arith, refl)
differ_twice zero (suc (suc c)) p q = absurd (omega arith)
differ_twice (suc zero) zero p q = (omega arith, refl)
differ_twice (suc zero) (suc zero) p q = (omega arith, refl)
differ_twice (suc zero) (suc (suc c)) p q = absurd (omega arith)
differ_twice (suc (suc x)) c p q = absurd (omega arith)

xor_twice_fuel : (n a c : ℕ) → a ≤ n → c ≤ n → bit_xor (bit_xor a c) c ≡ a
xor_twice_fuel zero zero zero p q = refl
xor_twice_fuel zero (suc a) c p q = absurd (omega arith)
xor_twice_fuel zero zero (suc c) p q = absurd (omega arith)
xor_twice_fuel (suc n) a c p q = omega (
  arith,
  xor_digit a c,
  xor_digit (bit_xor a c) c,
  half,
  ap (λ (t : ℕ). bit_xor t (c / 2)) half,
  xor_twice_fuel n (a / 2) (c / 2) (omega arith) (omega arith),
  low,
  ap (λ (t : ℕ). differ t (c % 2)) last,
)
  where
    low : (differ (a % 2) (c % 2) ≤ 1) × (differ (differ (a % 2) (c % 2)) (c % 2) ≡ a % 2)
    low = differ_twice (a % 2) (c % 2) (omega arith) (omega arith)

    half : bit_xor a c / 2 ≡ bit_xor (a / 2) (c / 2)
    half = omega (arith, xor_digit a c, low.0)

    last : bit_xor a c % 2 ≡ differ (a % 2) (c % 2)
    last = omega (arith, xor_digit a c, low.0)

-- Exclusive or with the same number twice gives the first number back.
pub xor_twice : (a c : ℕ) → bit_xor (bit_xor a c) c ≡ a
xor_twice a c = xor_twice_fuel (a + c) a c (omega arith) (omega arith)

and-zero : (n a : ℕ) → a ≤ n → bit_and a 0 ≡ 0
and-zero n zero h = refl
and-zero zero (suc a) h = absurd (omega arith)
and-zero (suc n) (suc a) h =
    omega (arith, and_digit (suc a) 0, and-zero n (suc a / 2) (omega arith))

or-zero : (n a : ℕ) → a ≤ n → bit_or a 0 ≡ a
or-zero n zero h = refl
or-zero zero (suc a) h = absurd (omega arith)
or-zero (suc n) (suc a) h = omega (arith, or_digit (suc a) 0, or-zero n (suc a / 2) (omega arith))

-- The bit of value 4, read and set in a number.
pub and_four : (a : ℕ) → bit_and a 4 ≡ (a / 4) % 2 * 4
and_four a = omega (
  arith,
  and_digit a 4,
  and_digit (a / 2) 2,
  and_digit (a / 2 / 2) 1,
  and-zero (a / 2 / 2 / 2) (a / 2 / 2 / 2) (omega arith),
)

pub or_four : (a : ℕ) → a % 8 ≡ 0 → bit_or a 4 ≡ a + 4
or_four a h = omega (
  arith,
  or_digit a 4,
  or_digit (a / 2) 2,
  or_digit (a / 2 / 2) 1,
  or-zero (a / 2 / 2 / 2) (a / 2 / 2 / 2) (omega arith),
)

xor-zero : (n a : ℕ) → a ≤ n → bit_xor a 0 ≡ a
xor-zero n zero h = refl
xor-zero zero (suc a) h = absurd (omega arith)
xor-zero (suc n) (suc a) h =
    omega
      (arith, xor_digit (suc a) 0, xor-zero n (suc a / 2) (omega arith), differ_zero (suc a % 2))
  where
    differ_zero : (x : ℕ) → differ x 0 ≡ x
    differ_zero zero = refl
    differ_zero (suc x) = refl

pub xor_four : (a : ℕ) → a % 8 ≡ 0 → bit_xor (a + 4) 4 ≡ a
xor_four a h = rw (← or_four a h, ← same) (xor_twice a 4)
  where
    same : bit_xor a 4 ≡ bit_or a 4
    same = ground (
      arith,
      or_four a h,
      xor_digit a 4,
      xor_digit (a / 2) 2,
      xor_digit (a / 2 / 2) 1,
      xor-zero (a / 2 / 2 / 2) (a / 2 / 2 / 2),
    )
