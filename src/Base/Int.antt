-- ===== src/Base/Int.antt =====
-- Signed integers over the native numbers. `negsuc n` is -(n + 1).
use Prim.Native.Nat.{ℕ, suc, ◌+◌, ◌-◌, ◌%◌, ◌≤◌, ◌<◌}
use mathlib.Core.Path.{◌≡◌}
use mathlib.Core.Bool.{Bool, ◌&&◌}
use native.Mathlib.Omega.{arith}
use libmprompt.Base.Tests.{ltb, leb, ◌==◌, if◌then◌else◌}

pub data ℤ : Type 0 where
  pos : ℕ → ℤ
  negsuc : ℕ → ℤ

abbrev pub pos_part : ℤ → ℕ
pos_part (pos n) = n
pos_part (negsuc n) = 0

abbrev pub neg_part : ℤ → ℕ
neg_part (pos n) = 0
neg_part (negsuc n) = suc n

-- a - b, as an integer.
abbrev pub sub_ℕ : ℕ → ℕ → ℤ
sub_ℕ a b = if leb b a then pos (a - b) else negsuc (b - a - 1)

infixl 65 ◌+ℤ◌
abbrev pub ◌+ℤ◌ : ℤ → ℤ → ℤ
a +ℤ b = sub_ℕ (pos_part a + pos_part b) (neg_part a + neg_part b)

infix 50 ◌≤ℤ◌
abbrev pub ◌≤ℤ◌ : ℤ → ℤ → Type 0
a ≤ℤ b = pos_part a + neg_part b ≤ pos_part b + neg_part a

abbrev pub ltb_ℤ : ℤ → ℤ → Bool
ltb_ℤ a b = ltb (pos_part a + neg_part b) (pos_part b + neg_part a)

abbrev pub leb_ℤ : ℤ → ℤ → Bool
leb_ℤ a b = leb (pos_part a + neg_part b) (pos_part b + neg_part a)

abbrev pub eq_ℤ : ℤ → ℤ → Bool
eq_ℤ a b = (pos_part a == pos_part b) && (neg_part a == neg_part b)

-- The decrement `z--`.
abbrev pub dec : ℤ → ℤ
dec z = z +ℤ negsuc 0

-- The 16-bit pattern `r` read as an `int16_t`.
abbrev pub from_bits16 : ℕ → ℤ
from_bits16 r = if ltb r 32768 then pos r else negsuc (65535 - r)

-- The conversion `(int16_t) z`: the low 16 bits of the two's complement of `z`.
abbrev pub to_int16 : ℤ → ℤ
to_int16 (pos n) = from_bits16 (n % 65536)
to_int16 (negsuc n) = from_bits16 (65535 - n % 65536)

-- The conversion changes no value of the type.
pub to_int16_range : (z : ℤ) → pos_part z < 32768 → neg_part z ≤ 32768 → to_int16 z ≡ z
to_int16_range (pos n) h k = ground arith
to_int16_range (negsuc n) h k = ground arith

pub sub_ℕ-add : (a b : ℕ) → sub_ℕ a b +ℤ pos b ≡ pos a
sub_ℕ-add a b = ground arith
