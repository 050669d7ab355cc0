-- ===== src/Gpool/Create.antt =====
-- `mp_gpool_create` in fresh memory: every block but the first is free, by the zeros alone.
use native.Mathlib.Nat.{mul-le-mul_right, div-mul-le_self, le-div_iff_mul-le}
use libmprompt.Base.{
  ℕ, zero, suc, ◌+◌, ◌-◌, ◌*◌, ◌/◌, ◌≤◌, ◌<◌, ◌≡◌, refl, ◌≢◌, Bool, true, false, some, List, [],
  ◌∷◌, map, arith, length, All, has, Distinct, if◌then◌else◌, ltb, leb, ◌==◌, not, Bool-cases, inl,
  inr, ◌&&◌,
}
use mathlib.Core.Path.{ap₂}
use libmprompt.Base.Int.{pos}
use libmprompt.Util.{align_up}
use libmprompt.Util.Align.{le-align_up}
use libmprompt.Os.{Os}
use libmprompt.Gpool.{Gpool, gpool_create, gpool_max_count, sizeof_gpool, index_at}
use libmprompt.Gpool.Stack.{entries, IsBlock, IsPool}
use libmprompt.Gpool.Blocks.{IsPlaced}

-- The numbers from `i` on, `n` of them.
abbrev pub count_up : (n i : ℕ) → List ℕ
count_up zero i = []
count_up (suc n) i = i ∷ count_up n (suc i)

length-count_up : (n i : ℕ) → length (count_up n i) ≡ n
length-count_up zero i = refl
length-count_up (suc n) i = omega (arith, length-count_up n (suc i))

not-has-count_up : (n i j : ℕ) → j < i → has j (count_up n i) ≡ false
not-has-count_up zero i j h = refl
not-has-count_up (suc n) i j h = ground (arith, not-has-count_up n (suc i) j)

Distinct-count_up : (n i : ℕ) → Distinct (count_up n i)
Distinct-count_up zero i = tt
Distinct-count_up (suc n) i =
    (not-has-count_up n (suc i) i (omega arith), Distinct-count_up n (suc i))

IsBlock-count_up :
    (gp : Gpool) (n i : ℕ) → 0 < i → n + i ≤ gp.block_count → All (IsBlock gp) (count_up n i)
IsBlock-count_up gp zero i h k = tt
IsBlock-count_up gp (suc n) i h k =
    ((h, omega arith), IsBlock-count_up gp n (suc i) (omega arith) (omega arith))

-- A zero entry stands for its own place.
entries-zero :
    (gp : Gpool) (n i : ℕ) → ((j : ℕ) → gp.free j ≡ pos 0) → entries gp n i ≡ map pos (count_up n i)
unfolding index_at
entries-zero gp zero i z = refl
entries-zero gp (suc n) i z = ap₂ ◌∷◌ (rw (z i) (ground arith)) (entries-zero gp n (suc i) z)

-- A new pool, with all its blocks free in order.
pub record IsFresh (gp : Gpool) (size : ℕ) : Type 0 where
  pub pool : IsPool gp [] (count_up (gp.block_count - 1) 1)
  pub placed : IsPlaced gp
  pub within : gp.size ≤ size

-- How many blocks the new pool gets.
abbrev block_limit : (size max block_size : ℕ) → ℕ
block_limit size max block_size =
    let count =
      if ltb (max / block_size) (size / block_size) then max / block_size else size / block_size in
    if ltb gpool_max_count count then gpool_max_count else count

block_limit_range :
    (size max block_size : ℕ)
    → 0 < block_size
    → 2 * block_size ≤ size
    → 2 * block_size ≤ max
    → let n = block_limit size max block_size in
      (2 ≤ n) × (n ≤ gpool_max_count) × (n ≤ size / block_size)
block_limit_range size max block_size h two room =
    let a = (le-div_iff_mul-le {k = block_size} {x = 2} {y = size} h).1 two in
    let b = (le-div_iff_mul-le {k = block_size} {x = 2} {y = max} h).1 room in ground arith

abbrev new_gpool : (p size max stack_size gap_size : ℕ) → Gpool
new_gpool p size max stack_size gap_size =
    let block_size = stack_size + gap_size in
    let limit = block_limit size max block_size in
    record {
      addr = p;
      full_size = size;
      size = limit * block_size;
      block_count = limit;
      block_size = block_size;
      gap_size = gap_size;
      zeroed = true;
      free_sp = 1;
      free = λ i. pos 0;
    }

new_gpool-IsFresh :
    (p size max stack_size gap_size : ℕ)
    → 0 < stack_size
    → 2 * (stack_size + gap_size) ≤ size
    → 2 * (stack_size + gap_size) ≤ max
    → IsFresh (new_gpool p size max stack_size gap_size) size
new_gpool-IsFresh p size max stack_size gap_size h two room =
    let gp = new_gpool p size max stack_size gap_size in
    let bs = stack_size + gap_size in
    let n = block_limit size max bs in
    let r = block_limit_range size max bs (omega arith) two room in
    let len = length-count_up (n - 1) 1 in
    record {
      pool = record {
        decodes = rw len (entries-zero gp (n - 1) 1 (λ j. refl));
        distinct = Distinct-count_up (n - 1) 1;
        blocks = IsBlock-count_up gp (n - 1) 1 (omega arith) (omega (arith, r.0));
        counted = omega (arith, len, r.0);
        top = omega (arith, len, r.0);
        fits = r.1;
      };
      placed = record { divided = refl; gap_fits = omega arith };
      within =
          omega (arith, mul-le-mul_right {m = n} {n = size / bs} bs r.2, div-mul-le_self size bs);
    }

module _ (debug : Bool) (os : Os) (p size stack_size gap_size : ℕ) (pools : List Gpool)
    (page : 0 < os.page_size) where
  abbrev pub aligned_block : ℕ
  aligned_block = align_up stack_size os.page_size + align_up gap_size os.page_size

  -- In zeroed memory that has room for two blocks, the new pool is pushed in front of the list.
  gpool_create_lem :
      p ≢ 0
      → sizeof_gpool < stack_size
      → 2 * aligned_block ≤ size
      → 2 * aligned_block ≤ os.gpool_max_size
      → (gp : Gpool) × (gpool_create debug os p size stack_size gap_size true (λ i. pos 0) pools
          ≡ some (some gp, gp ∷ pools))
        × IsFresh gp size
        × (gp.addr ≡ p)
  unfolding gpool_create
  gpool_create_lem h l two room =
      let a = le-align_up stack_size os.page_size page in
      let b = le-align_up gap_size os.page_size page in
      let ss = align_up stack_size os.page_size in
      let gap = align_up gap_size os.page_size in
      let r = block_limit_range size os.gpool_max_size aligned_block (omega arith) two room in
      let q = (le-div_iff_mul-le {k = aligned_block} {x = 2} {y = size} (omega arith)).1 two in
      let ok : (leb (stack_size + gap_size) size && (not (p == 0) && ltb sizeof_gpool stack_size))
          ≡ true =
        ground arith in
      let some_blocks : ltb 1 (size / aligned_block) ≡ true = ground arith in
      let not_empty : (size / aligned_block == 0) ≡ false = ground arith in
      (
        new_gpool p size os.gpool_max_size ss gap,
        rw (ok, some_blocks, not_empty)
            (elim (Bool-cases debug) [ inl d ↦ rw d refl | inr d ↦ rw d refl ]),
        new_gpool-IsFresh p size os.gpool_max_size ss gap (omega arith) two room,
        refl,
      )
