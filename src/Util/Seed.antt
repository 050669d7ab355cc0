-- ===== src/Util/Seed.antt =====
-- What the random bytes of src/mprompt/util.c promise.
use Prim.Native.Nat.{bit_xor}
use libmprompt.Base.{
  ℕ, ◌%◌, ◌*◌, ◌+◌, ◌≤◌, ◌≡◌, ◌≢◌, refl, Bool, true, false, not, ◌&&◌, some, List, [], ◌∷◌, arith,
  ◌==◌, Bool-cases, inl, inr, if◌then◌else◌, ==_refl,
}
use libmprompt.Base.Int.{pos, negsuc, pos_part, leb_ℤ}
use libmprompt.Util.Random.{
  Read, is_transient, read_loop, read_urandom, os_random_buf, weak_loop, os_random_weak,
}

-- No call of `read` gives more than it is asked for, from `count` bytes on.
abbrev pub IsWithin : List Read → (buf_len count : ℕ) → Type 0
IsWithin [] buf_len count = Unit {0}
IsWithin (r ∷ reads) buf_len count =
    (count + pos_part r.ret ≤ buf_len) × IsWithin reads buf_len (count + pos_part r.ret)

-- The bytes that the calls give together, up to the first error that is not transient.
abbrev pub bytes_read : List Read → ℕ
bytes_read [] = 0
bytes_read (r ∷ reads) =
    let more = bytes_read reads in
    if leb_ℤ r.ret (pos 0) && not (is_transient r.errno) then 0 else pos_part r.ret + more

next_count :
    (r : Read) (count : ℕ)
    → (if leb_ℤ r.ret (pos 0) then count else count + pos_part r.ret) ≡ count + pos_part r.ret
next_count r count = ground arith

read_loop_count :
    (reads : List Read) (buf_len count : ℕ)
    → IsWithin reads buf_len count
    → count ≤ buf_len
    → buf_len ≤ count + bytes_read reads
    → read_loop reads buf_len count ≡ some buf_len
unfolding read_loop
read_loop_count [] buf_len count w h k = ground arith
read_loop_count (r ∷ reads) buf_len count w h k =
    elim (Bool-cases (leb_ℤ r.ret (pos 0) && not (is_transient r.errno))) [
      | inl e ↦ ground (arith, e)
      | inr e ↦
          let b : bytes_read (r ∷ reads) ≡ pos_part r.ret + bytes_read reads = rw e refl in
          let more =
            read_loop_count reads buf_len (count + pos_part r.ret) w.1 w.0 (omega (arith, k, b)) in
          rw (next_count r count, more) (ground (arith, e))
    ]

-- /dev/urandom is read across short reads and interruptions: if the calls, up to the first error of
-- another kind, give as many bytes as the buffer has, they are all read, and the function succeeds.
pub read_urandom_full :
    (reads : List Read) (buf_len : ℕ)
    → IsWithin reads buf_len 0
    → buf_len ≤ bytes_read reads
    → read_urandom true reads buf_len ≡ some true
unfolding read_urandom
read_urandom_full reads buf_len w h =
    rw (read_loop_count reads buf_len 0 w (omega arith) (omega (arith, h)), ==_refl buf_len) refl

weak_loop-pos : (times : List (ℕ × ℕ)) (x y : ℕ) → weak_loop times x ≡ some y → y ≢ 0
unfolding weak_loop
weak_loop-pos [] x y e = absurd (cc e)
weak_loop-pos ((sec, nsec) ∷ times) x y e =
    let x' = bit_xor (bit_xor x (sec * 131072 % 18446744073709551616)) nsec in
    elim (Bool-cases (x' == 0)) [
      | inl t ↦ weak_loop-pos times x' y (rw t at e)
      | inr t ↦ λ z. ground (arith, t, z, (rw t at e))
    ]

-- A system call that fails returns -1: then /dev/urandom is never opened, whatever the error was.
pub urandom_never_opened :
    (enosys : ℕ) (opens : Bool) (reads : List Read) (buf_len : ℕ)
    → os_random_buf (some (negsuc 0)) enosys opens reads buf_len 0 ≡ (some false, 0)
unfolding os_random_buf
urandom_never_opened enosys opens reads buf_len = ground arith

-- The weak random number is not 0.
pub os_random_weak-pos :
    (addr : ℕ) (times : List (ℕ × ℕ)) (x : ℕ) → os_random_weak addr times ≡ some x → x ≢ 0
unfolding os_random_weak
os_random_weak-pos addr times x e = weak_loop-pos times _ x e
