-- ===== src/Gpool/Roundtrip.antt =====
-- `mp_gpool_alloc_stack` and `mp_gpool_free` over the list of pools.
use libmprompt.Base.{
  ℕ, ◌+◌, ◌-◌, ◌≤◌, ◌≡◌, sym, ap, ◌∙◌, fun_ext, ◌⊎◌, Bool, true, false, Option, some, List, [], ◌∷◌,
  arith, write, All, none, ltb, not, ◌&&◌,
}
use libmprompt.Base.Int.{ℤ, pos, negsuc, ◌+ℤ◌, sub_ℕ}
use libmprompt.Os.{Os}
use libmprompt.Gpool.{Gpool, index_at, gpool_alloc_stack, gpool_free, in_pool}
use libmprompt.Gpool.Stack.{
  All-move, IsBlock, IsPool, popped, pushed, pop_free_lem, pop_free_none, push_free_lem, top_entry,
}
use libmprompt.Gpool.Blocks.{IsPlaced, address_of, stack_at_run, in_pool-true, free_block_run}

-- A pool with some free stack and some blocks in use.
pub record IsValid (gp : Gpool) : Type 0 where
  pub used : List ℕ
  pub free : List ℕ
  pub pool : IsPool gp used free
  pub placed : IsPlaced gp

-- The areas of the pools are apart.
abbrev pub Apart : Gpool → Gpool → Type 0
Apart gp gq = (gp.addr + gp.size ≤ gq.addr) ⊎ (gq.addr + gq.size ≤ gp.addr)

abbrev pub Separate : List Gpool → Type 0
Separate [] = Unit
Separate (gp ∷ pools) = All (Apart gp) pools × Separate pools

write_same {ℓ} : {A : Type ℓ} (h : ℕ → A) (p : ℕ) → write h p (h p) ≡ h
write_same h p = fun_ext λ q. ground arith

-- A pop and the push of the popped block restore the pool.
sub_ℕ-of-add : (z : ℤ) (i b : ℕ) → z +ℤ pos i ≡ pos b → sub_ℕ b i ≡ z
sub_ℕ-of-add (pos n) i b e = ground arith
sub_ℕ-of-add (negsuc n) i b e = ground arith

pushed-popped :
    (gp : Gpool) (used : List ℕ) (b : ℕ) (free : List ℕ)
    → IsPool gp used (b ∷ free)
    → pushed (popped gp) b ≡ gp
unfolding index_at
pushed-popped gp used b free v = λ i. record gp { free_sp = same_sp i; free = same_free i }
  where
    same_sp : gp.free_sp + 1 - 1 ≡ gp.free_sp
    same_sp = omega arith

    entry : sub_ℕ b gp.free_sp ≡ gp.free gp.free_sp
    entry = sub_ℕ-of-add (gp.free gp.free_sp) gp.free_sp b (top_entry gp used b free v).1

    same_free : (pushed (popped gp) b).free ≡ gp.free
    same_free = rw (same_sp, entry) (write_same gp.free gp.free_sp)

-- The first pool with a free block gives it.
alloc_first :
    (debug : Bool) (os : Os) (gp : Gpool) (pools : List Gpool) (used : List ℕ) (b : ℕ)
    → (free : List ℕ) → IsPool gp used (b ∷ free)
    → gpool_alloc_stack debug os (gp ∷ pools)
      ≡ some (some (address_of os gp b, gp.block_size - gp.gap_size), popped gp ∷ pools)
unfolding gpool_alloc_stack
alloc_first debug os gp pools used b free v =
    let p = pop_free_lem gp used b free v in
    let block : IsBlock gp b = (All-move (IsBlock gp) b used free v.blocks).0 in
    rw (p.0, gpool_alloc_stack) (rw (stack_at_run os gp b block) (ground (arith, block)))

-- The result behind a pool that has no free block.
abbrev behind : Gpool → Option (Option (ℕ × ℕ) × List Gpool) → Option (Option (ℕ × ℕ) × List Gpool)
behind gp none = none
behind gp (some (found, pools)) = some (found, gp ∷ pools)

behind-some :
    (gp : Gpool) (r : Option (Option (ℕ × ℕ) × List Gpool)) (found : Option (ℕ × ℕ))
    (pools : List Gpool)
    → behind gp r ≡ some (found, pools)
    → (pools' : List Gpool) × (r ≡ some (found, pools')) × (pools ≡ gp ∷ pools')
behind-some gp none found pools e = absurd (cc e)
behind-some gp (some (found', pools')) found pools e =
    (pools', ap (λ f. some (f, pools')) (let same : found' ≡ found = cc e in same), cc e)

alloc_later :
    (debug : Bool) (os : Os) (gp : Gpool) (pools : List Gpool) (used : List ℕ)
    → IsPool gp used []
    → gpool_alloc_stack debug os (gp ∷ pools) ≡ behind gp (gpool_alloc_stack debug os pools)
unfolding gpool_alloc_stack
alloc_later debug os gp pools used v =
    let holds : (debug && not (ltb 0 (gp.block_count + 0))) ≡ false = ground (arith, v.counted) in
    rw (pop_free_none gp used v, gpool_alloc_stack)
      (rw holds (ap (λ q. behind q.1 (gpool_alloc_stack debug os pools)) (pop_free_none gp used v)))

-- A stack of the pool at the head goes back there; another goes on to the rest.
free_here :
    (debug : Bool) (os : Os) (gp : Gpool) (pools : List Gpool) (used : List ℕ) (b : ℕ)
    → (free : List ℕ) → IsPool gp used (b ∷ free)
    → IsPlaced gp
    → gpool_free debug os (address_of os gp b) (popped gp ∷ pools) ≡ some (gp ∷ pools)
unfolding gpool_free
free_here debug os gp pools used b free v g =
    let p = pop_free_lem gp used b free v in
    let block : IsBlock gp b = (All-move (IsBlock gp) b used free v.blocks).0 in
    let g' : IsPlaced (popped gp) = record { divided = g.divided; gap_fits = g.gap_fits } in
    rw (in_pool-true os (popped gp) b block g', gpool_free)
      (rw (
        free_block_run os (popped gp) b block debug g',
        (push_free_lem (popped gp) [] used b free p.1 debug).0,
        pushed-popped gp used b free v,
      ))

in_pool-Apart : (gp gq : Gpool) (p : ℕ) → Apart gp gq → in_pool gq p ≡ true → in_pool gp p ≡ false
in_pool-Apart gp gq p h k = ground arith

-- A stack from other pools is not in the pool `gp`.
outside_first :
    (debug : Bool) (os : Os) (gp gq : Gpool) (pools pools' : List Gpool) (used free : List ℕ)
    → {stk n : ℕ} → Apart gp gq
    → IsPool gq used free
    → IsPlaced gq
    → ((rest : List Gpool)
        → gpool_alloc_stack debug os pools ≡ some (some (stk, n), rest)
        → in_pool gp stk ≡ false)
    → gpool_alloc_stack debug os (gq ∷ pools) ≡ some (some (stk, n), pools')
    → in_pool gp stk ≡ false
outside_first debug os gp gq pools pools' used [] {stk} {n} a v g rest e =
    let (pools'', run, _) =
      behind-some gq (gpool_alloc_stack debug os pools) (some (stk, n)) pools'
        (sym (alloc_later debug os gq pools used v) ∙ e) in
    rest pools'' run
outside_first debug os gp gq pools pools' used (b ∷ free) {stk} {n} a v g rest e =
    let block : IsBlock gq b = (All-move (IsBlock gq) b used free v.blocks).0 in
    let same : address_of os gq b ≡ stk = cc (alloc_first debug os gq pools used b free v) in
    in_pool-Apart gp gq stk a (rw (← same) (in_pool-true os gq b block g))

alloc_outside :
    (debug : Bool) (os : Os) (gp : Gpool) (pools pools' : List Gpool) {stk n : ℕ}
    → All (Apart gp) pools
    → All IsValid pools
    → gpool_alloc_stack debug os pools ≡ some (some (stk, n), pools')
    → in_pool gp stk ≡ false
alloc_outside debug os gp [] pools' a v e = unfold gpool_alloc_stack in absurd (cc e)
alloc_outside debug os gp (gq ∷ pools) pools' a v e =
    outside_first debug os gp gq pools pools' v.0.used v.0.free a.0 v.0.pool v.0.placed
      (λ rest r. alloc_outside debug os gp pools rest a.1 v.1 r) e

roundtrip_first :
    (debug : Bool) (os : Os) (gp : Gpool) (pools pools' : List Gpool) (used free : List ℕ)
    → {stk n : ℕ} → IsPool gp used free
    → IsPlaced gp
    → ((rest : List Gpool)
        → gpool_alloc_stack debug os pools ≡ some (some (stk, n), rest)
        → (in_pool gp stk ≡ false) × (gpool_free debug os stk rest ≡ some pools))
    → gpool_alloc_stack debug os (gp ∷ pools) ≡ some (some (stk, n), pools')
    → gpool_free debug os stk pools' ≡ some (gp ∷ pools)
roundtrip_first debug os gp pools pools' used [] {stk} {n} v g rest e =
    let (tail, run, same) =
      behind-some gp (gpool_alloc_stack debug os pools) (some (stk, n)) pools'
        (sym (alloc_later debug os gp pools used v) ∙ e) in
    let (out, back) = rest tail run in rw same (unfold gpool_free in rw out (rw back))
roundtrip_first debug os gp pools pools' used (b ∷ free) {stk} {n} v g rest e =
    let first = alloc_first debug os gp pools used b free v in
    let same : stk ≡ address_of os gp b = cc first in
    let left : pools' ≡ popped gp ∷ pools = cc first in
    rw (same, left) (free_here debug os gp pools used b free v g)

-- In a list of valid pools, whose areas are apart, a stack that was just allocated and is freed again leaves
-- the pools as they were, and the assertions of the release hold.
pub gpool_free-alloc_stack :
    (debug : Bool) (os : Os) (pools pools' : List Gpool) {stk n : ℕ}
    → All IsValid pools
    → Separate pools
    → gpool_alloc_stack debug os pools ≡ some (some (stk, n), pools')
    → gpool_free debug os stk pools' ≡ some pools
gpool_free-alloc_stack debug os [] pools' v d e = unfold gpool_alloc_stack in absurd (cc e)
gpool_free-alloc_stack debug os (gp ∷ pools) pools' v d e =
    roundtrip_first debug os gp pools pools' v.0.used v.0.free v.0.pool v.0.placed
      (λ rest r. (
        alloc_outside debug os gp pools rest d.0 v.1 r,
        gpool_free-alloc_stack debug os pools rest v.1 d.1 r,
      ))
      e
