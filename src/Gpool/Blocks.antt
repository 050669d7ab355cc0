-- ===== src/Gpool/Blocks.antt =====
-- Where the blocks of a pool lie, and that a freed stack is the block that was handed out.
use native.Mathlib.Nat.{mul-le-mul_right, mul-mod_left, mul-div_left}
use libmprompt.Base.{
  ℕ, ◌+◌, ◌-◌, ◌*◌, ◌≤◌, ◌<◌, ◌≡◌, ◌⊎◌, inl, inr, ◌≢◌, Bool, true, some, arith, if◌then◌else◌,
}
use libmprompt.Os.{Os}
use libmprompt.Gpool.{Gpool, stack_at, free_block, push_free, in_pool}
use libmprompt.Gpool.Stack.{IsBlock}

-- The area of a pool is divided into blocks, each with room for a stack in front of its gap.
pub record IsPlaced (gp : Gpool) : Type 0 where
  pub divided : gp.size ≡ gp.block_count * gp.block_size
  pub gap_fits : gp.gap_size < gp.block_size

-- The place of the block that the number `b` on the free stack means, counted from the pool's start.
unfoldable pub place_of : Os → (count b : ℕ) → ℕ
place_of os count b = if os.stack_grows_down then count - b else b

abbrev pub address_of : Os → Gpool → ℕ → ℕ
address_of os gp b = gp.addr + place_of os gp.block_count b * gp.block_size

module _ (os : Os) (gp : Gpool) (b : ℕ) (v : IsBlock gp b) where
  pub place_range :
      (0 < place_of os gp.block_count b) × (place_of os gp.block_count b < gp.block_count)
  unfolding place_of
  place_range = ground arith

  pub stack_at_run : stack_at os gp b ≡ some (address_of os gp b, gp.block_size - gp.gap_size)
  unfolding stack_at place_of
  stack_at_run = ground arith

  pub place_below :
      place_of os gp.block_count b * gp.block_size + gp.block_size ≤ gp.block_count * gp.block_size
  place_below = omega (
    arith,
    mul-le-mul_right {m = place_of os gp.block_count b + 1} {n = gp.block_count} gp.block_size
        (omega (arith, place_range.1)),
  )

  pub in_pool-true : IsPlaced gp → in_pool gp (address_of os gp b) ≡ true
  in_pool-true g = ground (arith, place_below, g.gap_fits, g.divided)

  -- A number and its place determine each other.
  place-place :
      (if os.stack_grows_down
        then gp.block_count - place_of os gp.block_count b
        else place_of os gp.block_count b)
      ≡ b
  unfolding place_of
  place-place = ground arith

  pub free_block_run :
      (debug : Bool)
      → IsPlaced gp
      → free_block debug os gp (address_of os gp b) ≡ push_free debug gp b
  unfolding free_block
  free_block_run debug g =
      let k = place_of os gp.block_count b in
      let ofs : address_of os gp b - gp.addr ≡ k * gp.block_size = omega arith in
      rw
        (
          ofs,
          mul-mod_left k gp.block_size,
          mul-div_left k {n = gp.block_size} (omega (arith, g.gap_fits)),
          place-place,
        )
        (ground (arith, place_range))

place-injective :
    (os : Os) (gp : Gpool) (b c : ℕ)
    → IsBlock gp b
    → IsBlock gp c
    → b ≢ c
    → (place_of os gp.block_count b < place_of os gp.block_count c)
      ⊎ (place_of os gp.block_count c < place_of os gp.block_count b)
unfolding place_of
place-injective os gp b c v w h = grind arith

before_next :
    (os : Os) (gp : Gpool) (b c : ℕ)
    → place_of os gp.block_count b < place_of os gp.block_count c
    → address_of os gp b + gp.block_size ≤ address_of os gp c
before_next os gp b c h = omega (
  arith,
  mul-le-mul_right {m = place_of os gp.block_count b + 1} {n = place_of os gp.block_count c}
      gp.block_size (omega (arith, h)),
)

-- Two different blocks, with their gaps, share no address.
blocks_apart :
    (os : Os) (gp : Gpool) (b c : ℕ)
    → IsBlock gp b
    → IsBlock gp c
    → b ≢ c
    → (address_of os gp b + gp.block_size ≤ address_of os gp c)
      ⊎ (address_of os gp c + gp.block_size ≤ address_of os gp b)
blocks_apart os gp b c v w h = elim (place-injective os gp b c v w h) [
  | inl l ↦ inl (before_next os gp b c l)
  | inr l ↦ inr (before_next os gp c b l)
]
