-- ===== src/Util/Random.antt =====
-- The random bytes of src/mprompt/util.c: `os_random_buf` on Linux, `os_random_weak`, and
-- `mp_guard_init`. What the system's functions return is an argument.
use Prim.Native.Nat.{bit_xor}
use libmprompt.Base.{
  ℕ, ◌+◌, ◌%◌, ◌*◌, Bool, true, false, not, ◌&&◌, Option, none, some, List, [], ◌∷◌, ◌==◌, ltb,
  if◌then◌else◌,
}
use libmprompt.Base.Int.{ℤ, pos, pos_part, leb_ℤ, eq_ℤ}

-- The error numbers that are told apart.
pub data Errno : Type 0 where
  eagain eintr other_error : Errno

-- What a call of `read` returns, with `errno` after it.
pub record Read : Type 0 where
  pub ret : ℤ
  pub errno : Errno

abbrev pub is_transient : Errno → Bool
is_transient other_error = false
is_transient _ = true

-- The loop that reads /dev/urandom, after `count` bytes: the count at its end, or `none` if the results
-- of the calls are used up before.
unfoldable pub read_loop : (reads : List Read) → (buf_len count : ℕ) → Option ℕ
read_loop [] buf_len count = if ltb count buf_len then none else some count
read_loop (r ∷ reads) buf_len count =
    let failed = leb_ℤ r.ret (pos 0) in
    let rest = read_loop reads buf_len (if failed then count else count + pos_part r.ret) in
    if not (ltb count buf_len)
    then some count
    else if failed && not (is_transient r.errno)
    then some count
    else rest

-- From the opening of /dev/urandom on.
unfoldable pub read_urandom : (opens : Bool) → (reads : List Read) → (buf_len : ℕ) → Option Bool
unfolding read_loop
read_urandom opens reads buf_len =
    if opens
    then elim (read_loop reads buf_len 0) [ none ↦ none | some count ↦ some (count == buf_len) ]
    else some false

-- `os_random_buf` on Linux, with the static `no_getrandom` before and after. `getrandom` is what the
-- system call returns, if the headers have it, and `enosys` is `ENOSYS`.
unfoldable pub os_random_buf :
    (getrandom : Option ℤ)
    → (enosys : ℕ) → (opens : Bool) → (reads : List Read) → (buf_len no_getrandom : ℕ)
    → Option Bool × ℕ
unfolding read_urandom
os_random_buf none enosys opens reads buf_len no_getrandom =
    (read_urandom opens reads buf_len, no_getrandom)
os_random_buf (some ret) enosys opens reads buf_len no_getrandom =
    if not (no_getrandom == 0)
    then (read_urandom opens reads buf_len, no_getrandom)
    else if leb_ℤ (pos 0) ret
    then (some (buf_len == pos_part ret), no_getrandom)
    else if not (eq_ℤ ret (pos enosys))
    then (some false, no_getrandom)
    else (read_urandom opens reads buf_len, 1)

-- The loop of `os_random_weak` from `x` on; a clock gives seconds and nanoseconds. `none` if the clock's
-- values are used up.
unfoldable pub weak_loop : (times : List (ℕ × ℕ)) → (x : ℕ) → Option ℕ
weak_loop [] x = none
weak_loop ((sec, nsec) ∷ times) x =
    let x' = bit_xor (bit_xor x (sec * 131072 % 18446744073709551616)) nsec in
    let rest = weak_loop times x' in if x' == 0 then rest else some x'

-- `os_random_weak`, for the address of the function.
unfoldable pub os_random_weak : (addr : ℕ) → (times : List (ℕ × ℕ)) → Option ℕ
unfolding weak_loop
os_random_weak addr times = weak_loop times (bit_xor addr 0x853C49E6748FEA9B)

-- `mp_guard_init`: the cookie, for what `os_random_buf` returns and leaves in the buffer.
unfoldable pub guard_init :
    (random : Bool) → (key : ℕ) → (addr : ℕ) → (times : List (ℕ × ℕ)) → Option ℕ
unfolding os_random_weak
guard_init random key addr times = if random then some key else os_random_weak addr times
