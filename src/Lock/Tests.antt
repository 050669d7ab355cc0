-- ===== src/Lock/Tests.antt =====
-- The theorems on the spin lock, applied to two threads over a pool of four blocks.
use libmprompt.Base.{ℕ, ◌<◌, ◌≡◌, ◌≢◌, refl, ◌⊎◌, true, List, [], ◌∷◌, arith, All, write}
use libmprompt.Base.Int.{pos}
use libmprompt.Gpool.{Gpool}
use libmprompt.Lock.{
  take, took, idle, spinning, entered, critical, thread_step, System, moved, init, call, move,
  Reach, start, later,
}
use libmprompt.Lock.Atomic.{Atomic}
use libmprompt.Lock.Safety.{mutual_exclusion, critical_sections_atomic, no_deadlock, Releases}

abbrev four_blocks : Gpool
four_blocks = record {
  addr = 4096;
  full_size = 300000;
  size = 278528;
  block_count = 4;
  block_size = 69632;
  gap_size = 4096;
  zeroed = true;
  free_sp = 1;
  free = λ i. pos 0;
}

-- The threads 0 and 1 have called, to take a block each.
abbrev called : System
called = record (init four_blocks) {
  pc = write (write (λ i. idle) 0 (spinning take 0)) 1 (spinning take 0);
}

called-Reach : Reach 2 four_blocks called
called-Reach = later (later start (call 0 take (omega arith) refl)) (call 1 take (omega arith) refl)

-- The threads step in the order of a list.
abbrev run : System → List ℕ → System
run s [] = s
run s (i ∷ is) = run (moved s i) is

run-Reach :
    (s : System) (is : List ℕ)
    → All (λ i. i < 2) is
    → Reach 2 four_blocks s
    → Reach 2 four_blocks (run s is)
run-Reach s [] h r = r
run-Reach s (i ∷ is) h r = run-Reach (moved s i) is h.1 (later r (move i h.0))

-- The thread 1 is inside, and the thread 0 spins.
abbrev contended : System
contended = run called (1 ∷ 0 ∷ 1 ∷ [])

contended-Reach : Reach 2 four_blocks contended
contended-Reach = run-Reach called (1 ∷ 0 ∷ 1 ∷ []) (omega arith) called-Reach

abbrev both : List ℕ
both = 1 ∷ 0 ∷ 1 ∷ 1 ∷ 0 ∷ 1 ∷ 1 ∷ 0 ∷ 0 ∷ 0 ∷ 0 ∷ 0 ∷ []

both-Reach : Reach 2 four_blocks (run called both)
both-Reach = run-Reach called both (omega arith) called-Reach

-- The threads have taken the blocks 1 and 2.
both_blocks : (run called both).mem.log ≡ took (pos 2) ∷ took (pos 1) ∷ []
unfolding thread_step
both_blocks = refl

mutual_exclusion_example : ◌≡◌ {A = ℕ} 1 1
unfolding thread_step
mutual_exclusion_example = mutual_exclusion 2 four_blocks contended contended-Reach 1 1 refl refl

critical_sections_atomic_example :
    Atomic four_blocks (run called both).mem.log (run called both).mem.gp
unfolding thread_step
critical_sections_atomic_example =
    critical_sections_atomic 2 four_blocks (run called both) both-Reach refl

no_deadlock_example :
    ((thread_step contended.mem (contended.pc 0)).1 ≡ entered take)
    ⊎ ((j : ℕ) × (j ≢ 0)
        × (critical (contended.pc j) ≡ true)
        × Releases contended.mem (contended.pc j))
unfolding thread_step
no_deadlock_example = no_deadlock 2 four_blocks contended 0 take 0 contended-Reach refl
