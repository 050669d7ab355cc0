-- ===== src/Util/Guard.antt =====
-- The cookie hides a pointer and gives it back.
use libmprompt.Base.{ℕ, ◌≡◌, sym, ap, ◌∙◌}
use libmprompt.Base.Bits.{xor_twice}
use libmprompt.Util.{guard, unguard}

pub unguard-guard : (cookie p : ℕ) → unguard cookie (guard cookie p) ≡ p
unfolding guard unguard
unguard-guard cookie p = xor_twice p cookie

-- A value that passes the check against a guarded pointer is that pointer.
pub guard_injective : (cookie p q : ℕ) → guard cookie p ≡ guard cookie q → p ≡ q
unfolding guard
guard_injective cookie p q e =
    sym (unguard-guard cookie p) ∙ ap (unguard cookie) e ∙ unguard-guard cookie q
