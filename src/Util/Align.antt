-- ===== src/Util/Align.antt =====
-- What rounding a size to a multiple promises.
use native.Mathlib.Nat.{
  mul-mod_left, div-add-mod', mod-lt, mul-le-mul_right, le-div_iff_mul-le, div-lt_iff_lt-mul,
  mul-div_cancel,
}
use native.Mathlib.Decide.{dec_le}
use libmprompt.Base.{ℕ, zero, suc, ◌+◌, ◌-◌, ◌*◌, ◌/◌, ◌%◌, ◌≤◌, ◌<◌, ◌≡◌, refl, ap, arith}
use libmprompt.Util.{align_up, align_down}

-- The value on a divisor that is not 0.
align_up_pos : (x d : ℕ) → 0 < d → align_up x d ≡ (x + d - 1) / d * d
unfolding align_up
align_up_pos x d h = ground arith

align_down_pos : (x d : ℕ) → 0 < d → align_down x d ≡ x / d * d
unfolding align_down
align_down_pos x d h = ground arith

pub align_up-mod : (x d : ℕ) → 0 < d → align_up x d % d ≡ 0
align_up-mod x d h = rw (align_up_pos x d h) (mul-mod_left ((x + d - 1) / d) d)

pub le-align_up : (x d : ℕ) → 0 < d → x ≤ align_up x d
le-align_up x d h =
    omega (arith, align_up_pos x d h, div-add-mod' (x + d - 1) d, mod-lt (x + d - 1) h)

pub align_up-lt : (x d : ℕ) → 0 < d → align_up x d < x + d
align_up-lt x d h = omega (arith, align_up_pos x d h, div-add-mod' (x + d - 1) d)

-- A multiple of `d` in the interval that `align_up` leaves is that one.
multiple_unique : (a b x d : ℕ) → x ≤ a * d → b * d < x + d → b * d ≤ a * d
multiple_unique a b x d p q = elim (dec_le b a) [
  | yes h ↦ mul-le-mul_right d h
  | no h ↦ absurd (omega (arith, mul-le-mul_right {m = a + 1} {n = b} d (omega arith)))
]

-- `mp_align_up(x, d)` is the least multiple of `d` that is not below `x`.
pub align_up_least :
    (x d k : ℕ)
    → 0 < d
    → x ≤ k * d
    → (align_up x d % d ≡ 0) × (x ≤ align_up x d) × (align_up x d ≤ k * d)
align_up_least x d k h below = (
  align_up-mod x d h,
  le-align_up x d h,
  rw (align_up_pos x d h)
      (multiple_unique k ((x + d - 1) / d) x d below (omega (arith, div-add-mod' (x + d - 1) d))),
)

pub align_down-mod : (x d : ℕ) → 0 < d → align_down x d % d ≡ 0
align_down-mod x d h = rw (align_down_pos x d h) (mul-mod_left (x / d) d)

pub align_down-le : (x d : ℕ) → 0 < d → align_down x d ≤ x
align_down-le x d h = omega (arith, align_down_pos x d h, div-add-mod' x d)

pub lt-align_down : (x d : ℕ) → 0 < d → x < align_down x d + d
lt-align_down x d h = omega (arith, align_down_pos x d h, div-add-mod' x d, mod-lt x h)

-- The page of an address between two page boundaries lies between them.
pub page_between :
    (x d a b : ℕ)
    → 0 < d
    → a * d ≤ x
    → x < b * d
    → (a * d ≤ align_down x d) × (align_down x d + d ≤ b * d)
page_between x d a b h low high =
    let first : a ≤ x / d = (le-div_iff_mul-le {k = d} {x = a} {y = x} h).1 low in
    let last : x / d < b = (div-lt_iff_lt-mul {k = d} {x = x} {y = b} h).1 high in
    (
      omega (arith, align_down_pos x d h, mul-le-mul_right {m = a} {n = x / d} d first),
      omega (
        arith,
        align_down_pos x d h,
        mul-le-mul_right {m = x / d + 1} {n = b} d (omega (arith, last)),
      ),
    )

pub align_down_multiple : (k d : ℕ) → 0 < d → align_down (k * d) d ≡ k * d
align_down_multiple k d h = rw (align_down_pos (k * d) d h, mul-div_cancel k h) refl

pub pred_multiple : (k d n : ℕ) → n ≡ k * d → d ≤ n → 0 < d → n - d ≡ (k - 1) * d
pred_multiple zero d n e le h = omega arith
pred_multiple (suc k) d n e le h =
    let step : suc k * d ≡ k * d + d = omega arith in
    let same : (suc k - 1) * d ≡ k * d = ap (λ (t : ℕ). t * d) (omega arith) in
    omega (arith, step, same)
