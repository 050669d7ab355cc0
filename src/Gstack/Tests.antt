-- ===== src/Gstack/Tests.antt =====
-- The theorems on stacks, applied to a small stack and to the default configuration.
use libmprompt.Base.{◌+◌, ◌≡◌, refl, inl, inr, true, some, arith}
use libmprompt.Os.{Os, os_start, mp_base}
use libmprompt.Gstack.{Gstack, Gsave, gstack_save, gsave_restore}
use libmprompt.Gstack.Save.{gsave_restore-save}
use libmprompt.Base.{ℕ, false, [], ◌∷◌, write}
use libmprompt.Base.Int.{pos}
use libmprompt.Gstack.Cache.{Thread, Fresh, contents, is_good, gstack_alloc, gstack_clear_cache}
use libmprompt.Gstack.Delayed.{IsThread}
use libmprompt.Gstack.Config.{gstack_init}
use libmprompt.Gstack.Alloc.{allocated, gstack_alloc_lem}
use libmprompt.Gstack.Clear.{gstack_clear_cache_lem}

-- A stack as a pool gives it: without a gap in front.
abbrev stack : Gstack
stack = record {
  next = 0;
  full = 4096;
  full_size = 8192;
  stack = 4096;
  stack_size = 8192;
  initial_commit = 4096;
  committed = 4096;
  extra_size = 64;
  extra = 20000;
}

gsave_restore-save_example :
    (gs : Gsave) × (gstack_save true os_start (λ a. a + 1) stack 12000 ≡ some gs)
    × (gsave_restore gs (λ a. 0) 12100 ≡ 12101)
gsave_restore-save_example =
    gsave_restore-save true os_start (λ a. a + 1) (λ a. 0) stack 12000 12100 (omega arith)
      (omega arith) (inr (omega arith)) (inl (omega arith, omega arith))

-- The stacks 1 is cached, and 3 and 2 are delayed, in a system with room for two cached stacks.
abbrev small : Os
small = record os_start { page_size = 4096; gstack_cache_max_count = 2 }

abbrev thread : Thread
thread = record {
  gstacks = write (write (λ x. stack) 3 (record stack { next = 2 })) 2 (record stack { next = 0 });
  cache = 1;
  cache_count = pos 1;
  delayed_free = 3;
  unmapped = [];
}

thread-IsThread : IsThread thread (1 ∷ []) (3 ∷ 2 ∷ [])
thread-IsThread = record {
  cached = ground arith;
  delayed = ground arith;
  distinct = ground arith;
  each = ground arith;
  counted = refl;
}

-- A new stack, and the page size of the system.
abbrev new : Fresh
new = record {
  addr = 9;
  extra = 20000;
  full = 65536;
  stack = 65536;
  stack_size = 8192;
  initial_commit = 4096;
}

-- No cached stack has room for 100 bytes.
gstack_alloc_example :
    (t' : Thread) × (gstack_alloc 4 true false (λ c. c) small 5000 100 (some new) thread
      ≡ some (allocated small 100 (some new) 0 t', small))
    × IsThread t' (3 ∷ 1 ∷ []) []
    × (t'.unmapped ≡ 2 ∷ [])
    × ((y : ℕ) → contents t' y ≡ contents thread y)
unfolding is_good
gstack_alloc_example =
    gstack_alloc_lem 4 true (λ c. c) small small 5000 100 (some new) thread (1 ∷ []) (3 ∷ 2 ∷ [])
      (unfold gstack_init in refl) (unfold mp_base in refl) thread-IsThread (omega arith)

gstack_clear_cache_example :
    (t' : Thread) × (gstack_clear_cache 4 true false small thread ≡ some t')
    × IsThread t' [] []
    × (t'.unmapped ≡ 1 ∷ 3 ∷ 2 ∷ [])
gstack_clear_cache_example =
    gstack_clear_cache_lem 4 true small thread (1 ∷ []) (3 ∷ 2 ∷ []) (omega arith) thread-IsThread
      (omega arith)
