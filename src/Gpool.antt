-- ===== src/Gpool.antt =====
-- src/mprompt/gstack_gpool.c: pools of stacks in reserved memory. A pool hands out block numbers from
-- a stack of free ones, whose entry at `i` stands for the block `free[i] + i`. An operation on one
-- pool runs under the pool's spin lock, so it is one step here. `none` is a failed assertion of a
-- debug build, or a write outside the array.
pub mod Stack
pub mod Fault
pub mod Create
pub mod Blocks
pub mod Roundtrip
mod Tests
use libmprompt.Base.{
  ℕ, ◌+◌, ◌-◌, ◌*◌, ◌/◌, ◌%◌, Bool, true, false, not, ◌&&◌, ◌||◌, Option, none, some, List, [], ◌∷◌,
  ◌==◌, ltb, leb, if◌then◌else◌, write,
}
use libmprompt.Base.Int.{ℤ, pos, negsuc, pos_part, ◌+ℤ◌, sub_ℕ, ltb_ℤ, leb_ℤ, to_int16}
use libmprompt.Util.{align_up}
use libmprompt.Os.{Os, Access, noaccess, noaccess_stack_overflow, access, access_meta}

abbrev pub gpool_max_count : ℕ
gpool_max_count = 32000

-- `sizeof(mp_gpool_t)` with 8-byte pointers: nine words (`zeroed` and the lock take one each) and
-- the array of 16-bit entries.
abbrev pub sizeof_gpool : ℕ
sizeof_gpool = 64072

-- `addr` is where the pool stands. The array holds the values of `int16_t`.
pub record Gpool : Type 0 where
  pub addr : ℕ
  pub full_size : ℕ
  pub size : ℕ
  pub block_count : ℕ
  pub block_size : ℕ
  pub gap_size : ℕ
  pub zeroed : Bool
  pub free_sp : ℕ
  pub free : ℕ → ℤ

abbrev require {ℓ} : {A : Type ℓ} → Bool → Bool → Option A → Option A
require debug b rest = if debug && not b then none else rest

abbrev smaller : ℕ → ℕ → ℕ
smaller a b = if ltb b a then b else a

-- `mp_gpool_create`; `memory` is what the array's place holds before. The result NULL is the inner
-- `none`.
unfoldable pub gpool_create :
    (debug : Bool) (os : Os) (p size stack_size gap_size : ℕ) (zeroed : Bool)
    → (memory : ℕ → ℤ) → List Gpool
    → Option (Option Gpool × List Gpool)
unfolding align_up
gpool_create debug os p size stack_size gap_size zeroed memory pools =
    let ok = leb (stack_size + gap_size) size && (not (p == 0) && ltb sizeof_gpool stack_size) in
    let block_size = align_up stack_size os.page_size + align_up gap_size os.page_size in
    let count = size / block_size in
    let limit = smaller (smaller count (os.gpool_max_size / block_size)) gpool_max_count in
    let cleared =
      if zeroed then memory else λ i. if ltb (72 + 2 * i) os.page_size then pos 0 else memory i in
    let gp : Gpool = record {
      addr = p;
      full_size = size;
      size = limit * block_size;
      block_count = limit;
      block_size = block_size;
      gap_size = align_up gap_size os.page_size;
      zeroed = zeroed;
      free_sp = 1;
      free = cleared;
    } in
    require debug ok (
      require debug (ltb 1 count)
        (if count == 0 then some (none, pools) else some (some gp, gp ∷ pools)))

-- The block number that the entry at `i` stands for.
unfoldable pub index_at : Gpool → ℕ → ℤ
index_at gp i = gp.free i +ℤ pos i

-- The critical section of `mp_gpool_alloc_stack`: the popped block number, 0 if there is none.
unfoldable pub pop_free : Gpool → ℤ × Gpool
unfolding index_at
pop_free gp =
    if ltb gp.free_sp gp.block_count
    then (index_at gp gp.free_sp, record gp { free_sp = gp.free_sp + 1 })
    else (pos 0, gp)

-- The block that a popped number means: from the top, when stacks grow down.
unfoldable pub block_of : Os → Gpool → ℕ → ℤ
block_of os gp idx = if os.stack_grows_down then sub_ℕ gp.block_count idx else pos idx

-- The rest of an iteration, for a popped number that is positive.
unfoldable pub stack_at : Os → Gpool → ℕ → Option (ℕ × ℕ)
unfolding block_of
stack_at os gp idx =
    let block = block_of os gp idx in
    if leb_ℤ block (pos 0) || leb_ℤ (pos gp.block_count) block
    then none
    else some (gp.addr + pos_part block * gp.block_size, gp.block_size - gp.gap_size)

-- `mp_gpool_alloc_stack`: the stack and its size, or NULL.
unfoldable pub gpool_alloc_stack :
    (debug : Bool) → Os → List Gpool → Option (Option (ℕ × ℕ) × List Gpool)
unfolding pop_free stack_at
gpool_alloc_stack debug os [] = some (none, [])
gpool_alloc_stack debug os (gp ∷ pools) =
    let (idx, gp') = pop_free gp in
    let rest = gpool_alloc_stack debug os pools in
    require debug (leb_ℤ (pos 0) idx && ltb_ℤ idx (pos gp.block_count)) (
      if ltb_ℤ (pos 0) idx
      then some (stack_at os gp (pos_part idx), gp' ∷ pools)
      else elim rest [ none ↦ none | some (found, pools') ↦ some (found, gp' ∷ pools') ])

-- `mp_gpool_alloc`. `reserved` is what `mp_os_mem_reserve` returns, and `committed` what
-- `mp_os_mem_commit` does; fresh memory is zero.
unfoldable pub gpool_alloc :
    (debug : Bool) (os : Os) (reserved : ℕ) (committed : Bool)
    → List Gpool
    → Option (Option (ℕ × ℕ) × List Gpool)
unfolding gpool_alloc_stack gpool_create
gpool_alloc debug os reserved committed pools = elim (gpool_alloc_stack debug os pools) [
  | none ↦ none
  | some (found, pools') ↦
      let created =
        gpool_create debug os reserved os.gpool_max_size (os.gstack_size - os.gstack_gap)
          os.gstack_gap true (λ i. pos 0) pools' in
      elim found [
        | some stk ↦ some (some stk, pools')
        | none ↦ if reserved == 0 || not committed then some (none, pools') else elim created [
          | none ↦ none
          | some (gp, pools'') ↦ gpool_alloc_stack debug os pools''
        ]
      ]
]

-- The critical section of `mp_gpool_free`, and the assertions after it.
unfoldable pub push_free : Bool → Gpool → ℕ → Option Gpool
push_free debug gp idx =
    let sp = gp.free_sp - 1 in
    let entry = sub_ℕ idx sp in
    let gp' = record gp { free_sp = sp; free = write gp.free sp (to_int16 entry) } in
    if gp.free_sp == 0
    then none
    else require debug (leb_ℤ (negsuc 32767) entry && leb_ℤ entry (pos 32767))
        (require debug (ltb 0 sp) (some gp'))

-- `mp_gpool_free` in the pool that holds `stk`.
unfoldable pub free_block : Bool → Os → Gpool → ℕ → Option Gpool
unfolding push_free
free_block debug os gp stk =
    let ofs = stk - gp.addr in
    let block = ofs / gp.block_size in
    let idx = if os.stack_grows_down then gp.block_count - block else block in
    require debug (ofs % gp.block_size == 0) (
      require debug (ltb 0 block) (
        if block == 0
        then some gp
        else require debug (ltb block gp.block_count)
            (if leb gp.block_count block then some gp else push_free debug gp idx)))

abbrev pub in_pool : Gpool → ℕ → Bool
in_pool gp p = leb gp.addr p && ltb (p - gp.addr) gp.size

-- `mp_gpool_free`.
unfoldable pub gpool_free : Bool → Os → ℕ → List Gpool → Option (List Gpool)
unfolding free_block
gpool_free debug os stk [] = some []
gpool_free debug os stk (gp ∷ pools) =
    let rest = gpool_free debug os stk pools in
    if in_pool gp stk
    then elim (free_block debug os gp stk) [ none ↦ none | some gp' ↦ some (gp' ∷ pools) ]
    else elim rest [ none ↦ none | some pools' ↦ some (gp ∷ pools') ]

-- The result of `mp_gpools_check_access` and its output parameters.
pub record Checked : Type 0 where
  pub kind : Access
  pub stack_size : ℕ
  pub available : ℕ
  pub pool : Option Gpool

-- `mp_gpools_check_access` in the pool that holds the address.
unfoldable pub check_access_in : Os → Gpool → ℕ → Checked
check_access_in os gp p =
    let ofs = p - gp.addr in
    let stack_size = gp.block_size - gp.gap_size in
    let block_ofs = ofs % gp.block_size in
    let avail = if os.stack_grows_down then block_ofs else stack_size - block_ofs in
    if leb ofs sizeof_gpool
    then record {
      kind = access_meta;
      stack_size = stack_size;
      available = sizeof_gpool - ofs;
      pool = some gp;
    }
    else if ltb block_ofs stack_size
    then record {
      kind = if avail == 0 then noaccess_stack_overflow else access;
      stack_size = stack_size;
      available = avail;
      pool = some gp;
    }
    else record {
      kind = noaccess_stack_overflow;
      stack_size = stack_size;
      available = 0;
      pool = none;
    }

-- `mp_gpools_check_access`.
unfoldable pub gpools_check_access : Os → ℕ → List Gpool → Checked
unfolding check_access_in
gpools_check_access os p [] = record { kind = noaccess; stack_size = 0; available = 0; pool = none }
gpools_check_access os p (gp ∷ pools) =
    let rest = gpools_check_access os p pools in
    if in_pool gp p then check_access_in os gp p else rest
