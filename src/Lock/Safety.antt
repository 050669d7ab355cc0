-- ===== src/Lock/Safety.antt =====
-- What the spin lock gives: mutual exclusion, critical sections that act as one step, and progress.
use libmprompt.Base.{
  ℕ, zero, suc, ◌≡◌, ◌≢◌, refl, sym, ◌∙◌, true, arith, ltb, ◌==◌, Bool-cases, ◌⊎◌, inl, inr,
}
use native.Mathlib.Decide.{ℕ_discrete}
use libmprompt.Gpool.{Gpool}
use libmprompt.Lock.{
  Op, take, give, Pc, idle, spinning, entered, took_sp, took_top, gave_sp, gave_top, gave_at,
  leaving, crashed, critical, Shared, thread_step, System, Reach,
}
use libmprompt.Lock.Atomic.{Atomic}
use libmprompt.Lock.Exclusion.{Owner, nobody, one, Reach-IsExclusive}

one_holder :
    (a : Gpool) (s : System)
    → Owner a s
    → (i j : ℕ) → critical (s.pc i) ≡ true
    → critical (s.pc j) ≡ true
    → i ≡ j
one_holder a s (nobody l e q) i j c d = absurd (cc (q i, c))
one_holder a s (one k l m c u) i j d e = elim (ℕ_discrete i k) [
  | no ne ↦ absurd (cc (u i ne, d))
  | yes x ↦ elim (ℕ_discrete j k) [ no ne ↦ absurd (cc (u j ne, e)) | yes y ↦ x ∙ sym y ]
]

-- Two threads are never in a critical section of one pool together.
pub mutual_exclusion :
    (n : ℕ) (gp : Gpool) (s : System)
    → Reach n gp s
    → (i j : ℕ) → critical (s.pc i) ≡ true
    → critical (s.pc j) ≡ true
    → i ≡ j
mutual_exclusion n gp s r i j c d =
    one_holder (Reach-IsExclusive n gp r).pool s (Reach-IsExclusive n gp r).owner i j c d

settled :
    (gp a : Gpool) (s : System)
    → Owner a s
    → Atomic gp s.mem.log a
    → s.mem.lock ≡ 0
    → Atomic gp s.mem.log s.mem.gp
settled gp a s (nobody l e q) t z = rw e t
settled gp a s (one i l m c u) t z = absurd (omega arith)

-- Whatever steps the threads take, in any order: while no thread holds the lock, the pool is what the
-- recorded operations make of it when each is done at once, in the order of their releases, and each
-- block number that was taken is the one that the operation then returns.
pub critical_sections_atomic :
    (n : ℕ) (gp : Gpool) (s : System) → Reach n gp s → s.mem.lock ≡ 0 → Atomic gp s.mem.log s.mem.gp
critical_sections_atomic n gp s r l =
    let v = Reach-IsExclusive n gp r in settled gp v.pool s v.owner v.atomic l

-- The next `k` steps of one thread.
abbrev pub run_thread : (k : ℕ) → Shared → Pc → Shared × Pc
run_thread zero m p = (m, p)
run_thread (suc k) m p = run_thread k (thread_step m p).0 (thread_step m p).1

-- Within five of its own steps a thread has released the lock, or it has crashed.
abbrev pub Releases : Shared → Pc → Type 0
Releases m p = let r = run_thread 5 m p in ((r.1 ≡ idle) × (r.0.lock ≡ 0)) ⊎ (r.1 ≡ crashed)

releases : (m : Shared) (p : Pc) → critical p ≡ true → Releases m p
unfolding thread_step
releases m idle c = absurd (cc c)
releases m (spinning op expected) c = absurd (cc c)
releases m (entered take) c = elim (Bool-cases (ltb m.gp.free_sp m.gp.block_count)) [
  | inl e ↦ rw e (inl (refl, refl))
  | inr e ↦ rw e (inl (refl, refl))
]
releases m (entered (give idx)) c = elim (Bool-cases (m.gp.free_sp == 0)) [
  | inl e ↦ rw e (inr refl)
  | inr e ↦ rw e (inl (refl, refl))
]
releases m (took_sp sp) c = inl (refl, refl)
releases m (took_top sp) c = inl (refl, refl)
releases m (gave_sp idx sp) c = elim (Bool-cases (sp == 0)) [
  | inl e ↦ rw e (inr refl)
  | inr e ↦ rw e (inl (refl, refl))
]
releases m (gave_top idx) c = inl (refl, refl)
releases m (gave_at idx sp) c = inl (refl, refl)
releases m (leaving e) c = inl (refl, refl)
releases m crashed c = inr refl

acquires :
    (m : Shared) (op : Op) (expected : ℕ)
    → m.lock ≡ 0
    → expected ≡ 0
    → (thread_step m (spinning op expected)).1 ≡ entered op
unfolding thread_step
acquires m op expected l z = rw (z, l) refl

-- A thread that spins enters the critical section with its next step; or another thread is in one, and
-- within five steps of its own that thread has released the lock, or has run the stack pointer of the pool
-- below 0.
pub no_deadlock :
    (n : ℕ) (gp : Gpool) (s : System) (i : ℕ) (op : Op) (expected : ℕ)
    → Reach n gp s
    → s.pc i ≡ spinning op expected
    → ((thread_step s.mem (s.pc i)).1 ≡ entered op)
      ⊎ ((j : ℕ) × (j ≢ i) × (critical (s.pc j) ≡ true) × Releases s.mem (s.pc j))
no_deadlock n gp s i op expected r e = let v = Reach-IsExclusive n gp r in progress v.owner
  where
    progress :
        Owner (Reach-IsExclusive n gp r).pool s
        → ((thread_step s.mem (s.pc i)).1 ≡ entered op)
          ⊎ ((j : ℕ) × (j ≢ i) × (critical (s.pc j) ≡ true) × Releases s.mem (s.pc j))
    progress (nobody l f q) =
        inl (rw e (acquires s.mem op expected l (rw e at ((Reach-IsExclusive n gp r).reset i))))
    progress (one j l m c u) = inr (j, (λ x. cc (rw x at c, e)), c, releases s.mem (s.pc j) c)
