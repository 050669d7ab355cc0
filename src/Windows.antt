-- ===== src/Windows.antt =====
-- src/mprompt/gstack_win.c: the memory of stacks on Windows. What the system's functions return is an
-- argument; sizes and addresses are natural numbers.
pub mod PageFault
pub mod Balance
pub mod Growth
pub mod Overflow
pub mod Exception
mod Tests
use libmprompt.Base.{
  ℕ, ◌+◌, ◌-◌, ◌*◌, Bool, true, false, not, ◌&&◌, Option, none, some, List, [], ◌∷◌, ◌==◌, ltb,
  if◌then◌else◌,
}
use libmprompt.Base.Int.{ℤ, pos, negsuc, pos_part, sub_ℕ, ◌+ℤ◌, ltb_ℤ, eq_ℤ}
use libmprompt.Util.{kib, mib, gib, align_up, align_down}
use libmprompt.Os.{Os, mp_base, mp_push, push_start}
use libmprompt.Mmap.{Area, OsStack}

-- The values of `uintptr_t`, 2^64.
abbrev pub two_64 : ℕ
two_64 = 18446744073709551616

-- A signed size as `uintptr_t`, and back.
abbrev pub to_uintptr : ℤ → ℕ
to_uintptr (pos n) = n
to_uintptr (negsuc n) = two_64 - 1 - n

abbrev pub to_ssize : ℕ → ℤ
to_ssize n = if ltb n 9223372036854775808 then pos n else negsuc (two_64 - 1 - n)

-- `mp_align_down` on a signed size.
unfoldable pub align_down_ssize : ℤ → ℕ → ℤ
unfolding align_down
align_down_ssize x d = to_ssize (align_down (to_uintptr x) d)

-- The first value of `mp_os_reserve_hint`, from the address of a local variable.
unfoldable pub first_hint : (local_addr : ℕ) → ℤ
unfolding align_down_ssize
first_hint local_addr = align_down_ssize (sub_ℕ local_addr (64 * mib)) (64 * kib)

-- The first part of `mp_os_mem_reserve`: the hint that it goes on with, and `mp_os_reserve_hint` after
-- it. `loaded` is the value that was loaded, `shared` the one that the compare-exchange meets.
unfoldable pub initial_hint : (local_addr : ℕ) → (loaded shared : ℤ) → ℤ × ℤ
unfolding first_hint
initial_hint local_addr loaded shared =
    let hint = first_hint local_addr in
    if not (eq_ℤ loaded (pos 0))
    then (loaded, shared)
    else if eq_ℤ shared (pos 0)
    then (hint, hint)
    else (shared, shared)

-- The second part: the place that is asked for, if any, and `mp_os_reserve_hint` after it.
unfoldable pub hinted : (hint : ℤ) → (size : ℕ) → (shared : ℤ) → Option ℕ × ℤ
unfolding align_up
hinted hint size shared =
    let rsize = align_up size (64 * kib) in
    let own = shared +ℤ sub_ℕ 0 rsize in
    if ltb_ℤ (pos rsize) hint && ltb_ℤ (pos gib) hint
    then (if ltb_ℤ (pos 0) own then some (pos_part own) else none, own)
    else (none, shared)

-- `mp_os_mem_reserve`: the memory, or 0, and `mp_os_reserve_hint` after it. `virtual_alloc` is what
-- `VirtualAlloc` reserves, with or without a place to try first; `others` is what other threads do to
-- `mp_os_reserve_hint` before the compare-exchange, and `others'` before the addition.
unfoldable pub mem_reserve :
    (virtual_alloc : Option ℕ → ℕ → ℕ)
    → (local_addr : ℕ) → (others others' : ℤ → ℤ) → (size : ℕ) → (shared : ℤ) → ℕ × ℤ
unfolding initial_hint hinted
mem_reserve virtual_alloc local_addr others others' size shared =
    let (hint, shared') = initial_hint local_addr shared (others shared) in
    let (place, shared'') = hinted hint size (others' shared') in
    let p : ℕ = elim place [ none ↦ 0 | some a ↦ virtual_alloc (some a) size ] in
    (if p == 0 then virtual_alloc none size else p, shared'')

-- The size of the guard pages, for what `SetThreadStackGuarantee` says.
unfoldable pub guard_size : Os → (guaranteed : ℕ) → ℕ
unfolding align_up
guard_size os guaranteed = os.page_size + align_up guaranteed os.page_size

-- The areas that `mp_win_initial_commit` commits, and makes a guard.
unfoldable pub commit_area : Os → (stk stk_size : ℕ) → Area
unfolding mp_base push_start
commit_area os stk stk_size = record {
  start = push_start os (mp_base os stk stk_size) os.gstack_initial_commit;
  size = os.gstack_initial_commit;
}

unfoldable pub guard_area : Os → (guaranteed stk stk_size : ℕ) → Area
unfolding mp_base mp_push push_start guard_size
guard_area os guaranteed stk stk_size = record {
  start =
      push_start os (mp_push os (mp_base os stk stk_size) os.gstack_initial_commit)
        (guard_size os guaranteed);
  size = guard_size os guaranteed;
}

-- `mp_win_initial_commit`, with `commit_initial` set as its callers do: the initial commit, or a
-- failure. `commits` and `guards` are whether `VirtualAlloc` succeeds on an area.
unfoldable pub initial_commit :
    Os → (guaranteed stk stk_size : ℕ) → (commits guards : Area → Bool) → Option ℕ
unfolding commit_area guard_area
initial_commit os guaranteed stk stk_size commits guards =
    let some_commit = ltb 0 os.gstack_initial_commit in
    if stk == 0
    then none
    else if some_commit && not (commits (commit_area os stk stk_size))
    then none
    else if guards (guard_area os guaranteed stk stk_size)
    then some (if some_commit then os.gstack_initial_commit else 0)
    else none

-- What happens to the memory and the pools: the calls of `VirtualFree` and of `mp_gpool_free`.
pub data Release : Type 0 where
  release : (full : ℕ) → Release
  decommit : Area → Release
  to_pool : (full : ℕ) → Release

-- The stack at `full`, after its initial commit; `back` is what a failure gives back.
unfoldable pub committed_stack :
    Os
    → (full stk stk_size : ℕ) → (commit : Option ℕ) → (back : Release)
    → Option OsStack × List Release
committed_stack os full stk stk_size none back = (none, back ∷ [])
committed_stack os full stk stk_size (some commit) back =
    (some (record { full = full; stk = stk; stk_size = stk_size; initial_commit = commit }), [])

-- `mp_gstack_os_alloc`: the stack, or NULL, and what it gives back. `reserved` is the result of
-- `mp_os_mem_reserve`, `pooled` the one of `mp_gpool_alloc`.
unfoldable pub win_os_alloc :
    Os
    → (guaranteed reserved : ℕ) → (pooled : Option (ℕ × ℕ)) → (commits guards : Area → Bool)
    → Option OsStack × List Release
win_os_alloc os guaranteed reserved pooled commits guards =
    let stk = reserved + os.gstack_gap in
    let stk_size = os.gstack_size - 2 * os.gstack_gap in
    let own = initial_commit os guaranteed stk stk_size commits guards in
    if not os.use_gpools
    then (if reserved == 0
        then (none, [])
        else committed_stack os reserved stk stk_size own (release reserved))
    else elim pooled [
      | none ↦ (none, [])
      | some (p, size) ↦
          committed_stack os p p size (initial_commit os guaranteed p size commits guards)
            (to_pool p)
    ]

-- `mp_os_mem_free`: its call of `VirtualFree`.
unfoldable pub mem_free : (p : ℕ) → List Release
mem_free p = if p == 0 then [] else release p ∷ []

-- `mp_gstack_os_free`.
unfoldable pub win_os_free : Os → (full stk stk_size : ℕ) → List Release
unfolding mem_free align_up
win_os_free os full stk stk_size =
    if full == 0
    then []
    else if not os.use_gpools
    then mem_free full
    else decommit (record { start = stk; size = align_up stk_size os.page_size })
      ∷ to_pool full
      ∷ []

-- `mp_gstack_os_init`: the configuration, for the system's page size and whether the page fault handler
-- is installed.
unfoldable pub win_os_init : (page_size : ℕ) → (handler : Bool) → Os → Option Os
win_os_init page_size handler os =
    let os' = record os { page_size = page_size } in
    some (if handler then os' else record os' { use_gpools = false; gstack_grow_fast = false })
