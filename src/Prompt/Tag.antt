-- ===== src/Prompt/Tag.antt =====
-- The two kinds of resumptions of src/mprompt/mprompt.c in one pointer: a plain prompt is a once
-- resumption, and a pointer with the bit 4 set is a multi-shot one.
use Prim.Native.Nat.{bit_and, bit_or, bit_xor}
use libmprompt.Base.{ℕ, ◌+◌, ◌%◌, ◌≡◌, refl, true, false, arith, ◌==◌, if◌then◌else◌}
use libmprompt.Base.Bits.{and_four, or_four, xor_four}

-- `mp_resume_is_once`.
unfoldable pub resume_is_once : ℕ → ℕ
resume_is_once r = if bit_and r 4 == 0 then r else 0

-- `mp_resume_is_multi`.
unfoldable pub resume_is_multi : ℕ → ℕ
resume_is_multi r = if bit_and r 4 == 0 then 0 else bit_xor r 4

-- `mp_resume_as_once`.
unfoldable pub resume_as_once : ℕ → ℕ
resume_as_once p = p

-- `mp_resume_as_multi`.
unfoldable pub resume_as_multi : ℕ → ℕ
resume_as_multi r = bit_or r 4

-- A pointer that is a multiple of 8 is found again from its tagged form, under its own kind only.
pub resume_kinds_apart :
    (p : ℕ)
    → p % 8 ≡ 0
    → (resume_is_once (resume_as_once p) ≡ p)
      × (resume_is_multi (resume_as_once p) ≡ 0)
      × (resume_is_multi (resume_as_multi p) ≡ p)
      × (resume_is_once (resume_as_multi p) ≡ 0)
unfolding resume_is_once resume_is_multi resume_as_once resume_as_multi
resume_kinds_apart p h =
    let plain : (bit_and p 4 == 0) ≡ true = ground (arith, and_four p) in
    let tagged : (bit_and (p + 4) 4 == 0) ≡ false = ground (arith, and_four (p + 4)) in
    (
      rw plain refl,
      rw plain refl,
      rw (or_four p h, tagged) (xor_four p h),
      rw (or_four p h, tagged) refl,
    )
