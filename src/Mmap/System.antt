-- ===== src/Mmap/System.antt =====
-- The calls of the system in src/mprompt/gstack_mmap.c: reserving, committing and resetting memory, and
-- `mp_gstack_os_init`. What a call returns is an argument.
use libmprompt.Base.{
  ℕ, Bool, true, false, not, ◌&&◌, ◌||◌, Option, none, some, List, [], ◌∷◌, ◌==◌, if◌then◌else◌,
}
use libmprompt.Base.Int.{ℤ, pos, pos_part, ltb_ℤ}
use libmprompt.Os.{Os}

-- `mp_os_mmap_reserve`. `uninitialized` says whether the system has `MAP_UNINITIALIZED`, `zeroed` is
-- `*zeroed` if it is not NULL, and `mapped` what `mmap` gives with or without that flag, if it succeeds.
-- The result is the memory, or 0, and `*zeroed` afterwards.
unfoldable pub mmap_reserve :
    (uninitialized : Bool) → (zeroed : Option Bool) → (mapped : Bool → Option ℕ) → ℕ × Option Bool
mmap_reserve uninitialized zeroed mapped =
    let zeroed' : Option Bool =
      if uninitialized then zeroed else elim zeroed [ none ↦ none | some z ↦ some true ] in
    let flag : Bool = uninitialized && elim zeroed [ none ↦ false | some z ↦ not z ] in
    (elim (mapped flag) [ none ↦ 0 | some p ↦ p ], zeroed')

-- `mp_os_mem_reserve`.
unfoldable pub mmap_mem_reserve : (uninitialized : Bool) → (mapped : Bool → Option ℕ) → ℕ
unfolding mmap_reserve
mmap_mem_reserve uninitialized mapped = (mmap_reserve uninitialized none mapped).0

-- The values of `advice`.
pub data Advice : Type 0 where
  free_reusable advice_free dontneed : Advice

abbrev pub is_dontneed : Advice → Bool
is_dontneed dontneed = true
is_dontneed _ = false

-- `mp_os_mem_reset`: whether it succeeds, and the static `advice` afterwards. `fixed` says whether the
-- system has `MAP_FIXED`, `mapped` whether `mmap` succeeds, `madvise` is 0 or the error, and `invalid`
-- is `EINVAL`.
unfoldable pub mem_reset :
    Os → (fixed mapped : Bool) → (madvise : Advice → ℕ) → (invalid : ℕ) → Advice → Bool × Advice
mem_reset os fixed mapped madvise invalid advice =
    let err = madvise advice in
    let retry = not (err == 0) && ((err == invalid) && not (is_dontneed advice)) in
    if fixed && os.gstack_reset_decommits
    then (mapped, advice)
    else if retry
    then (madvise dontneed == 0, dontneed)
    else (err == 0, advice)

-- What `mp_gstack_os_free` does: a call of `munmap`, or of `mp_os_mem_reset` and `mp_gpool_free`.
pub data Freed : Type 0 where
  unmapped : (full : ℕ) (size : ℕ) → Freed
  reset_stack : (stk stk_size : ℕ) → Freed
  to_pools : (full : ℕ) → Freed

-- `mp_os_mem_free`.
unfoldable pub mmap_mem_free : (p size : ℕ) → List Freed
mmap_mem_free p size = if p == 0 then [] else unmapped p size ∷ []

-- `mp_gstack_os_free`.
unfoldable pub mmap_os_free : Os → (full stk stk_size : ℕ) → List Freed
unfolding mmap_mem_free
mmap_os_free os full stk stk_size =
    if not os.use_gpools
    then mmap_mem_free full os.gstack_size
    else reset_stack stk stk_size ∷ to_pools full ∷ []

-- `mp_linux_use_overcommit`, for what it reads, if the file is opened.
unfoldable pub linux_use_overcommit : (file : Option (ℤ × ℕ)) → Bool
linux_use_overcommit none = false
linux_use_overcommit (some (nread, first)) = ltb_ℤ (pos 1) nread && ((first == 48) || (first == 49))

-- `mp_gstack_os_init` on Linux, for what `sysconf` returns.
unfoldable pub mmap_os_init : (page_size : ℤ) → (file : Option (ℤ × ℕ)) → Os → Option Os
unfolding linux_use_overcommit
mmap_os_init page_size file os = some (record os {
  page_size = if ltb_ℤ (pos 0) page_size then pos_part page_size else os.page_size;
  use_overcommit = not (os.use_gpools || os.gstack_grow_fast) && linux_use_overcommit file;
})
