-- ===== src/Util.antt =====
-- include/internal/util.h: sizes, alignment, and the guard cookie that hides code and stack
-- addresses. Sizes are natural numbers: each `ssize_t` that reaches these functions is a size or an
-- address and is not negative. Addresses stay below 2^64, where nothing wraps.
pub mod Align
pub mod Guard
pub mod Random
pub mod Message
pub mod Seed
mod Tests
use Prim.Native.Nat.{bit_xor}
use libmprompt.Base.{ℕ, ◌+◌, ◌-◌, ◌*◌, ◌/◌, ◌==◌, leb, if◌then◌else◌}

abbrev pub kib : ℕ
kib = 1024

abbrev pub mib : ℕ
mib = 1048576

abbrev pub gib : ℕ
gib = 1073741824

unfoldable pub align_up : ℕ → ℕ → ℕ
align_up x d = if d == 0 then x else (x + d - 1) / d * d

unfoldable pub align_down : ℕ → ℕ → ℕ
align_down x d = if d == 0 then x else x / d * d

unfoldable pub mp_max : ℕ → ℕ → ℕ
mp_max x y = if leb y x then x else y

-- Hide and recover a pointer, with the process' cookie.
unfoldable pub guard : ℕ → ℕ → ℕ
guard cookie p = bit_xor p cookie

unfoldable pub unguard : ℕ → ℕ → ℕ
unguard cookie p = bit_xor p cookie
