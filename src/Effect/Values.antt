-- ===== src/Effect/Values.antt =====
-- The generic values of include/mpeff.h: numbers and truth values as pointers, for pointers and a `long`
-- of 32 or of 64 bits.
use libmprompt.Base.{
  ℕ, ◌-◌, ◌%◌, ◌<◌, ◌≤◌, ◌≡◌, refl, Bool, true, false, not, arith, ltb, if◌then◌else◌,
}
use libmprompt.Base.Int.{ℤ, pos, negsuc, pos_part, neg_part, eq_ℤ}

pub data Width : Type 0 where
  bits32 bits64 : Width

-- The number of values of a type, and of those that are not negative in a signed one.
abbrev pub modulus : Width → ℕ
modulus bits32 = 4294967296
modulus bits64 = 18446744073709551616

abbrev pub half : Width → ℕ
half bits32 = 2147483648
half bits64 = 9223372036854775808

-- The conversion to an unsigned type: the low bits of the two's complement.
abbrev pub to_unsigned : Width → ℤ → ℕ
to_unsigned w (pos n) = n % modulus w
to_unsigned w (negsuc n) = modulus w - 1 - n % modulus w

-- A bit pattern, read as a signed number.
abbrev pub as_signed : Width → ℕ → ℤ
as_signed w r = if ltb r (half w) then pos r else negsuc (modulus w - 1 - r)

-- The conversion to a signed type.
abbrev pub to_signed : Width → ℤ → ℤ
to_signed w z = as_signed w (to_unsigned w z)

-- `(mpe_voidp_t)((intptr_t) z)` and `(intptr_t) v`, for pointers of the width `ptr`.
unfoldable pub voidp_of : (ptr : Width) → ℤ → ℕ
voidp_of ptr z = to_unsigned ptr (to_signed ptr z)

unfoldable pub intptr_of : (ptr : Width) → (v : ℕ) → ℤ
intptr_of ptr v = as_signed ptr v

-- `mpe_voidp_int` and `mpe_int_voidp`.
unfoldable pub voidp_int : (ptr : Width) → ℤ → ℕ
unfolding voidp_of
voidp_int ptr i = voidp_of ptr i

unfoldable pub int_voidp : (ptr : Width) → ℕ → ℤ
unfolding intptr_of
int_voidp ptr v = to_signed bits32 (intptr_of ptr v)

-- `mpe_voidp_long` and `mpe_long_voidp`, for a `long` of the width `long`.
unfoldable pub voidp_long : (ptr : Width) → ℤ → ℕ
unfolding voidp_of
voidp_long ptr i = voidp_of ptr i

unfoldable pub long_voidp : (ptr long : Width) → ℕ → ℤ
unfolding intptr_of
long_voidp ptr long v = to_signed long (intptr_of ptr v)

-- `mpe_voidp_uint64_t` and `mpe_uint64_t_voidp`.
unfoldable pub voidp_uint64 : (ptr : Width) → ℕ → ℕ
unfolding voidp_of
voidp_uint64 ptr u = voidp_of ptr (pos u)

unfoldable pub uint64_voidp : (ptr : Width) → ℕ → ℕ
unfolding intptr_of
uint64_voidp ptr v = to_unsigned bits64 (intptr_of ptr v)

-- `mpe_voidp_bool` and `mpe_bool_voidp`.
unfoldable pub voidp_bool : (ptr : Width) → Bool → ℕ
unfolding voidp_int
voidp_bool ptr b = voidp_int ptr (if b then pos 1 else pos 0)

unfoldable pub bool_voidp : (ptr : Width) → ℕ → Bool
unfolding int_voidp
bool_voidp ptr v = not (eq_ℤ (int_voidp ptr v) (pos 0))

-- The values of a signed type.
abbrev pub Fits : Width → ℤ → Type 0
Fits w z = (pos_part z < half w) × (neg_part z ≤ half w)

-- Whether the values of one width fit in another.
abbrev pub holds : (ptr w : Width) → Bool
holds bits32 bits64 = false
holds bits32 bits32 = true
holds bits64 w = true

signed_through :
    (ptr w : Width) (z : ℤ)
    → holds ptr w ≡ true
    → Fits w z
    → to_signed w (intptr_of ptr (voidp_of ptr z)) ≡ z
unfolding intptr_of voidp_of
signed_through bits32 bits32 (pos n) e f = ground arith
signed_through bits32 bits32 (negsuc n) e f = ground arith
signed_through bits32 bits64 z e f = absurd (ground arith)
signed_through bits64 bits32 (pos n) e f = ground arith
signed_through bits64 bits32 (negsuc n) e f = ground arith
signed_through bits64 bits64 (pos n) e f = ground arith
signed_through bits64 bits64 (negsuc n) e f = ground arith

holds-bits32 : (ptr : Width) → holds ptr bits32 ≡ true
holds-bits32 bits32 = refl
holds-bits32 bits64 = refl

uint64_through :
    (ptr : Width) (u : ℕ)
    → u < (if holds ptr bits64 then modulus bits64 else half bits32)
    → uint64_voidp ptr (voidp_uint64 ptr u) ≡ u
unfolding uint64_voidp voidp_uint64
uint64_through bits32 u l = ground arith
uint64_through bits64 u l = ground arith

bool_through : (ptr : Width) (b : Bool) → bool_voidp ptr (voidp_bool ptr b) ≡ b
unfolding bool_voidp voidp_bool
bool_through bits32 true = refl
bool_through bits32 false = refl
bool_through bits64 true = refl
bool_through bits64 false = refl

-- A number or truth value that is passed through a generic value comes back unchanged: an `int` and a
-- `bool` always, a `long` if pointers are as wide, and a `uint64_t` if pointers have 64 bits or it is
-- below 2^31.
voidp_roundtrip :
    (ptr long : Width) (i l : ℤ) (u : ℕ) (b : Bool)
    → Fits bits32 i
    → Fits long l
    → holds ptr long ≡ true
    → u < (if holds ptr bits64 then modulus bits64 else half bits32)
    → (int_voidp ptr (voidp_int ptr i) ≡ i)
      × (long_voidp ptr long (voidp_long ptr l) ≡ l)
      × (uint64_voidp ptr (voidp_uint64 ptr u) ≡ u)
      × (bool_voidp ptr (voidp_bool ptr b) ≡ b)
unfolding int_voidp long_voidp voidp_int voidp_long
voidp_roundtrip ptr long i l u b fi fl wide fu = (
  signed_through ptr bits32 i (holds-bits32 ptr) fi,
  signed_through ptr long l wide fl,
  uint64_through ptr u fu,
  bool_through ptr b,
)
