-- ===== src/Gpool/Tests.antt =====
-- The theorems on pools, applied to two small pools.
use libmprompt.Base.{ℕ, ◌≡◌, refl, inl, true, some, List, [], ◌∷◌, arith, write}
use libmprompt.Base.Int.{pos, negsuc}
use libmprompt.Os.{Os, os_start}
use libmprompt.Gpool.{Gpool, gpool_alloc_stack, gpool_free, index_at}
use libmprompt.Gpool.Stack.{IsPool, popped}
use libmprompt.Gpool.Blocks.{IsPlaced}
use libmprompt.Gpool.Roundtrip.{IsValid, gpool_free-alloc_stack}

abbrev os : Os
os = record os_start { page_size = 4096; gpool_max_size = 1000000 }

-- Four blocks of 69632 bytes with gaps of 4096, of which the block 2 is in use.
abbrev four_blocks : ℕ → Gpool
four_blocks p = record {
  addr = p;
  full_size = 300000;
  size = 278528;
  block_count = 4;
  block_size = 69632;
  gap_size = 4096;
  zeroed = true;
  free_sp = 2;
  free = write (write (λ i. pos 0) 2 (negsuc 0)) 1 (pos 1);
}

four_blocks-IsPool : (p : ℕ) → IsPool (four_blocks p) (2 ∷ []) (1 ∷ 3 ∷ [])
unfolding index_at
four_blocks-IsPool p = record {
  decodes = refl;
  distinct = ground arith;
  blocks = ground arith;
  counted = refl;
  top = refl;
  fits = omega arith;
}

four_blocks-IsPlaced : (p : ℕ) → IsPlaced (four_blocks p)
four_blocks-IsPlaced p = record { divided = refl; gap_fits = omega arith }

four_blocks-IsValid : (p : ℕ) → IsValid (four_blocks p)
four_blocks-IsValid p = record {
  used = 2 ∷ [];
  free = 1 ∷ 3 ∷ [];
  pool = four_blocks-IsPool p;
  placed = four_blocks-IsPlaced p;
}

abbrev here : Gpool
here = four_blocks 4096

abbrev pools : List Gpool
pools = here ∷ four_blocks 1000000 ∷ []

gpool_free-alloc_stack_example :
    gpool_free true os 212992 (popped here ∷ four_blocks 1000000 ∷ []) ≡ some pools
unfolding gpool_alloc_stack
gpool_free-alloc_stack_example =
    gpool_free-alloc_stack true os pools (popped here ∷ four_blocks 1000000 ∷ []) {stk = 212992}
      {n = 65536} (four_blocks-IsValid 4096, (four_blocks-IsValid 1000000, tt))
      ((inl (omega arith), tt), (tt, tt)) refl
