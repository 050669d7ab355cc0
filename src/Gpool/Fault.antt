-- ===== src/Gpool/Fault.antt =====
-- `mp_gpools_check_access` on the addresses of a block.
use native.Mathlib.Nat.{mul-add-mod_self_right, mod-eq_of_lt, mul-le-mul_right}
use libmprompt.Base.{
  ℕ, ◌+◌, ◌-◌, ◌*◌, ◌%◌, ◌<◌, ◌≡◌, refl, true, false, not, ◌&&◌, ◌||◌, List, [], ◌∷◌, ◌++◌, All,
  arith, if◌then◌else◌, leb, ltb,
}
use libmprompt.Os.{Os, access, noaccess_stack_overflow}
use libmprompt.Gpool.{Gpool, gpools_check_access, in_pool, sizeof_gpool}
use libmprompt.Gpool.Stack.{IsBlock}
use libmprompt.Gpool.Blocks.{IsPlaced, place_of, address_of, place_range, place_below}

-- The first block, which holds the pool's own data, is larger than these.
module _ (os : Os) (gp : Gpool) (pools : List Gpool) (b i : ℕ) (v : IsBlock gp b) (g : IsPlaced gp)
    (large : sizeof_gpool < gp.block_size) (inside : i < gp.block_size) where
  block_ofs : (address_of os gp b + i - gp.addr) % gp.block_size ≡ i
  block_ofs =
      let k = place_of os gp.block_count b in
      let ofs : address_of os gp b + i - gp.addr ≡ k * gp.block_size + i = omega arith in
      rw (ofs, mul-add-mod_self_right k gp.block_size i) (mod-eq_of_lt inside)

  beyond_meta : leb (address_of os gp b + i - gp.addr) sizeof_gpool ≡ false
  beyond_meta =
      let k = place_of os gp.block_count b in
      ground (
        arith,
        mul-le-mul_right {m = 1} {n = k} gp.block_size (omega (arith, place_range os gp b v)),
      )

  in_pool_at : in_pool gp (address_of os gp b + i) ≡ true
  in_pool_at = ground (arith, place_below os gp b v, g.divided)

  -- An access is a stack overflow in the gap behind a stack and, when stacks grow down, at the lowest
  -- address of the stack; everywhere else on the stack it is allowed.
  pub kind_in_block : (gpools_check_access os (address_of os gp b + i) (gp ∷ pools)).kind ≡ (
      if (ltb 0 i || not os.stack_grows_down) && ltb i (gp.block_size - gp.gap_size)
      then access
      else noaccess_stack_overflow)
  unfolding gpools_check_access
  kind_in_block = rw (in_pool_at, beyond_meta, block_ofs) (ground arith)

-- Pools that do not hold the address are passed over.
pub gpools_check_access-append :
    (os : Os) (p : ℕ) (before pools : List Gpool)
    → All (λ q. in_pool q p ≡ false) before
    → gpools_check_access os p (before ++ pools) ≡ gpools_check_access os p pools
unfolding gpools_check_access
gpools_check_access-append os p [] pools a = refl
gpools_check_access-append os p (q ∷ before) pools a =
    rw (gpools_check_access, a.0) (gpools_check_access-append os p before pools a.1)
