-- ===== src/Windows/Growth.antt =====
-- How far the page fault handler on Windows grows a stack.
use libmprompt.Base.{
  ℕ, ◌+◌, ◌-◌, ◌*◌, ◌≤◌, ◌<◌, ◌≡◌, ap, ◌∙◌, false, arith, Bool-cases, inl, inr, ltb, if◌then◌else◌,
  ◌&&◌, not,
}
use libmprompt.Base.Int.{pos, negsuc, leb_ℤ}
use libmprompt.Util.{align_down, mib}
use libmprompt.Util.Align.{align_down-le, lt-align_down, align_down_multiple, pred_multiple}
use libmprompt.Os.{Os}
use libmprompt.Windows.{align_down_ssize}
use libmprompt.Windows.PageFault.{ExnCode, cpp_exn, is_cpp, win_extra, win_growth}

-- A size that is not negative is rounded down; a negative one stays negative.
pub align_down_ssize_pos :
    (n d : ℕ) → 0 < d → n < 9223372036854775808 → align_down_ssize (pos n) d ≡ pos (align_down n d)
unfolding align_down_ssize
align_down_ssize_pos n d h k = ground (arith, align_down-le n d h)

align_down_ssize_neg :
    (n d : ℕ)
    → 0 < d
    → d + n < 9223372036854775808
    → leb_ℤ (pos 0) (align_down_ssize (negsuc n) d) ≡ false
unfolding align_down_ssize
align_down_ssize_neg n d h k = ground (
  arith,
  align_down-le (18446744073709551615 - n) d h,
  lt-align_down (18446744073709551615 - n) d h,
)

-- The growth before it is rounded, with room for the guard pages and without.
abbrev wanted : Os → ExnCode → (used : ℕ) → ℕ
wanted os code used =
    let least = if is_cpp code then os.gstack_exn_guaranteed - os.page_size else 0 in
    let doubled =
      if os.gstack_grow_fast && (not (is_cpp code) && ltb 0 used) then 2 * used else least in
    if ltb (1 * mib) doubled then 1 * mib else doubled

win_extra_room :
    (os : Os) (code : ExnCode) (used available guard : ℕ)
    → guard ≤ available
    → os.page_size ≤ os.gstack_exn_guaranteed
    → win_extra os code used available guard
      ≡ pos (
          if ltb (available - guard) (wanted os code used)
          then available - guard
          else wanted os code used)
unfolding win_extra
win_extra_room os code used available guard room least = elim (Bool-cases (is_cpp code)) [
  | inl e ↦ rw e (ground arith)
  | inr e ↦ rw e (ground arith)
]

win_extra_full :
    (os : Os) (code : ExnCode) (used available guard : ℕ)
    → available < guard
    → os.page_size ≤ os.gstack_exn_guaranteed
    → win_extra os code used available guard ≡ negsuc (guard - available - 1)
unfolding win_extra
win_extra_full os code used available guard full least = elim (Bool-cases (is_cpp code)) [
  | inl e ↦ rw e (ground arith)
  | inr e ↦ rw e (ground arith)
]

-- With room for the guard pages, the growth is not negative, and leaves that room.
pub win_growth-fits :
    (os : Os) (code : ExnCode) (used available guard : ℕ)
    → 0 < os.page_size
    → guard ≤ available
    → os.page_size ≤ os.gstack_exn_guaranteed
    → (e : ℕ) × (win_growth os code used available guard ≡ pos e)
      × (e + guard ≤ available)
      × (e ≤ 1 * mib)
unfolding win_growth
win_growth-fits os code used available guard h room least =
    let w = wanted os code used in
    let e = if ltb (available - guard) w then available - guard else w in
    let le = align_down-le e os.page_size h in
    let cap : (e ≤ available - guard) × (e ≤ 1 * mib) = (ground arith, ground arith) in
    (
      align_down e os.page_size,
      rw (win_growth, win_extra_room os code used available guard room least)
          (align_down_ssize_pos e os.page_size h (omega (arith, cap))),
      omega (arith, le, cap),
      omega (arith, le, cap),
    )

-- Without, it is negative.
pub win_growth-full :
    (os : Os) (code : ExnCode) (used available guard : ℕ)
    → 0 < os.page_size
    → available < guard
    → guard + os.page_size < 9223372036854775808
    → os.page_size ≤ os.gstack_exn_guaranteed
    → leb_ℤ (pos 0) (win_growth os code used available guard) ≡ false
unfolding win_growth
win_growth-full os code used available guard h full small least =
    rw (win_growth, win_extra_full os code used available guard full least)
      (align_down_ssize_neg (guard - available - 1) os.page_size h (omega arith))

-- A C++ exception asks for the guaranteed size, with the page, if that is at most 1 MiB and fits.
pub win_growth-cpp :
    (os : Os) (e used available guard : ℕ)
    → 0 < os.page_size
    → os.page_size ≤ os.gstack_exn_guaranteed
    → os.gstack_exn_guaranteed ≡ e * os.page_size
    → os.gstack_exn_guaranteed ≤ 1 * mib
    → guard + os.gstack_exn_guaranteed ≤ available + os.page_size
    → win_growth os cpp_exn used available guard ≡ pos (os.gstack_exn_guaranteed - os.page_size)
unfolding win_growth
win_growth-cpp os e used available guard h least aligned small fits =
    let n = os.gstack_exn_guaranteed - os.page_size in
    let multiple : n ≡ (e - 1) * os.page_size =
      pred_multiple e os.page_size os.gstack_exn_guaranteed aligned least h in
    let value : win_extra os cpp_exn used available guard ≡ pos n =
      win_extra_room os cpp_exn used available guard (omega arith) least ∙ ground arith in
    rw (win_growth, value)
      (align_down_ssize_pos n os.page_size h (omega arith)
        ∙ ap pos (rw multiple (align_down_multiple (e - 1) os.page_size h)))
