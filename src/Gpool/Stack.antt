-- ===== src/Gpool/Stack.antt =====
-- The stack of free blocks of a pool holds each block that is not in use, once.
use libmprompt.Base.{
  Distinct-move, Distinct-move_back, ℕ, zero, suc, ◌+◌, ◌-◌, ◌≤◌, ◌<◌, ◌≡◌, refl, ◌∙◌, Bool, some,
  List, [], ◌∷◌, ◌++◌, map, arith, write, length, length-append, All, Distinct, ==_refl,
}
use mathlib.Core.Path.{ap₂}
use mathlib.Core.List.{append_assoc}
use native.Mathlib.Numerals.{add-one}
use libmprompt.Base.Int.{sub_ℕ-add, ℤ, pos, pos_part, neg_part, sub_ℕ, to_int16_range}
use libmprompt.Gpool.{Gpool, gpool_max_count, index_at, pop_free, push_free}

-- The blocks that `n` entries from `i` on stand for.
abbrev pub entries : Gpool → (n i : ℕ) → List ℤ
entries gp zero i = []
entries gp (suc n) i = index_at gp i ∷ entries gp n (suc i)

-- A block number other than 0, which is the pool itself.
abbrev pub IsBlock : Gpool → ℕ → Type 0
IsBlock gp b = (0 < b) × (b < gp.block_count)

-- The blocks `used` are handed out, and the stack holds the blocks `free`, its top first.
pub record IsPool (gp : Gpool) (used free : List ℕ) : Type 0 where
  pub decodes : entries gp (length free) gp.free_sp ≡ map pos free
  pub distinct : Distinct (used ++ free)
  pub blocks : All (IsBlock gp) (used ++ free)
  pub counted : length used + length free + 1 ≡ gp.block_count
  pub top : gp.free_sp + length free ≡ gp.block_count
  pub fits : gp.block_count ≤ gpool_max_count

pub All-move {ℓ} :
    {A : Type ℓ} (P : A → Type 0) (b : A) (xs ys : List A)
    → All P (xs ++ b ∷ ys)
    → P b × All P (xs ++ ys)
All-move P b [] ys h = h
All-move P b (x ∷ xs) ys h = let r = All-move P b xs ys h.1 in (r.0, (h.0, r.1))

All-move_back {ℓ} :
    {A : Type ℓ} (P : A → Type 0) (b : A) (xs ys : List A)
    → P b
    → All P (xs ++ ys)
    → All P (xs ++ b ∷ ys)
All-move_back P b [] ys p h = (p, h)
All-move_back P b (x ∷ xs) ys p h = (h.0, All-move_back P b xs ys p h.1)

-- The entries depend on the array from `i` on only.
entries-agree :
    (gp gp' : Gpool) (n i : ℕ)
    → ((j : ℕ) → i ≤ j → gp'.free j ≡ gp.free j)
    → entries gp' n i ≡ entries gp n i
unfolding index_at
entries-agree gp gp' zero i same = refl
entries-agree gp gp' (suc n) i same =
    rw (same i (omega arith), entries-agree gp gp' n (suc i) (λ j h. same j (omega arith)))

-- The pool after a pop.
abbrev pub popped : Gpool → Gpool
popped gp = record gp { free_sp = gp.free_sp + 1 }

-- The pool after the block `b` is pushed.
abbrev pub pushed : Gpool → ℕ → Gpool
pushed gp b =
    let sp = gp.free_sp - 1 in record gp { free_sp = sp; free = write gp.free sp (sub_ℕ b sp) }

module _ (gp : Gpool) (used : List ℕ) (b : ℕ) (free : List ℕ) (v : IsPool gp used (b ∷ free)) where
  -- The top entry stands for the first free block.
  pub top_entry : (gp.free_sp < gp.block_count) × (index_at gp gp.free_sp ≡ pos b)
  top_entry = (omega (arith, v.top), cc (v.decodes))

  popped-IsPool : IsPool (popped gp) (b ∷ used) free
  unfolding index_at
  popped-IsPool = record {
    decodes =
        rw
          (
            entries-agree gp (popped gp) (length free) (gp.free_sp + 1) (λ j h. refl),
            add-one gp.free_sp,
          )
          (cc (v.decodes));
    distinct = Distinct-move b used free v.distinct;
    blocks = All-move (IsBlock gp) b used free v.blocks;
    counted = omega (arith, v.counted);
    top = omega (arith, v.top);
    fits = v.fits;
  }

  -- A pop takes the first free block, and puts it among those in use.
  pub pop_free_lem : (pop_free gp ≡ (pos b, popped gp)) × IsPool (popped gp) (b ∷ used) free
  unfolding pop_free
  pop_free_lem = (ground (arith, top_entry), popped-IsPool)

-- A pool with no free block stays as it is.
pub pop_free_none : (gp : Gpool) (used : List ℕ) → IsPool gp used [] → pop_free gp ≡ (pos 0, gp)
unfolding pop_free
pop_free_none gp used v = ground (arith, v.top)

module _ (gp : Gpool) (before after : List ℕ) (b : ℕ) (free : List ℕ)
    (v : IsPool gp (before ++ b ∷ after) free) where
  -- A block in use leaves room on the stack.
  room : 1 < gp.free_sp
  room = omega (arith, v.counted, v.top, length-append before (b ∷ after))

  in_range : (IsBlock gp b) × All (IsBlock gp) ((before ++ after) ++ free)
  in_range =
      let r = All-move (IsBlock gp) b before (after ++ free) (rw append_assoc at v.blocks) in
      (r.0, rw append_assoc r.1)

  pushed_entry : index_at (pushed gp b) (gp.free_sp - 1) ≡ pos b
  unfolding index_at
  pushed_entry = rw (==_refl (gp.free_sp - 1)) (sub_ℕ-add b (gp.free_sp - 1))

  pushed-decodes : entries (pushed gp b) (suc (length free)) (gp.free_sp - 1) ≡ map pos (b ∷ free)
  pushed-decodes =
      let next : suc (gp.free_sp - 1) ≡ gp.free_sp = omega (arith, room) in
      ap₂ ◌∷◌ pushed_entry (
        entries-agree gp (pushed gp b) (length free) (suc (gp.free_sp - 1)) (λ j h. ground arith)
        ∙ rw next v.decodes)

  pushed-IsPool : IsPool (pushed gp b) (before ++ after) (b ∷ free)
  pushed-IsPool = record {
    decodes = pushed-decodes;
    distinct =
        Distinct-move_back b (before ++ after) free (
          rw append_assoc (Distinct-move b before (after ++ free) (rw append_assoc at v.distinct)));
    blocks = All-move_back (IsBlock gp) b (before ++ after) free in_range.0 in_range.1;
    counted =
        omega (arith, v.counted, length-append before (b ∷ after), length-append before after);
    top = omega (arith, v.top, room);
    fits = v.fits;
  }

  -- Each entry is the difference of two numbers below the limit.
  entry_fits :
      (pos_part (sub_ℕ b (gp.free_sp - 1)) < 32768) × (neg_part (sub_ℕ b (gp.free_sp - 1)) < 32768)
  entry_fits = ground (arith, in_range, v.top, v.fits)

  -- A push of a block in use puts it on top, and loses nothing to the 16 bits of an entry.
  pub push_free_lem :
      (debug : Bool)
      → (push_free debug gp b ≡ some (pushed gp b))
        × IsPool (pushed gp b) (before ++ after) (b ∷ free)
  unfolding push_free
  push_free_lem debug =
      let e = entry_fits in
      (
        rw (to_int16_range (sub_ℕ b (gp.free_sp - 1)) e.0 (omega (arith, e.1)))
            (ground (arith, e, room)),
        pushed-IsPool,
      )
