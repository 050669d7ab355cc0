-- ===== src/Lock.antt =====
-- include/internal/atomic.h: the compare-exchange and the spin lock, and the two critical sections of
-- src/mprompt/gstack_gpool.c that it guards, for any number of threads over one pool. A step is one
-- access of one thread to the shared memory, in the order that the threads' code makes them.
pub mod Atomic
pub mod Invariant
pub mod Exclusion
pub mod Safety
mod Tests
use libmprompt.Base.{
  ℕ, ◌+◌, ◌-◌, ◌<◌, ◌≡◌, Bool, true, false, List, [], ◌∷◌, ◌==◌, ltb, if◌then◌else◌, write,
}
use libmprompt.Base.Int.{ℤ, pos, ◌+ℤ◌, sub_ℕ, to_int16}
use libmprompt.Gpool.{Gpool, index_at}

-- `mp_atomic_cas`: whether it succeeds, the shared value after it, and `*expected`.
unfoldable pub atomic_cas : (value expected desired : ℕ) → Bool × ℕ × ℕ
atomic_cas value expected desired =
    if value == expected then (true, desired, expected) else (false, value, value)

-- One round of the loop of `mp_spin_lock_acquire`.
unfoldable pub spin_once : (lock expected : ℕ) → Bool × ℕ × ℕ
unfolding atomic_cas
spin_once lock expected =
    let (ok, lock', expected') = atomic_cas lock expected 1 in
    (ok, lock', if ok then expected' else 0)

-- What a thread does to the pool: take a block, or give back the one with an index.
pub data Op : Type 0 where
  take : Op
  give : (idx : ℕ) → Op

-- What it has done: the popped block number, or the pushed index.
pub data Event : Type 0 where
  took : (idx : ℤ) → Event
  gave : (idx : ℕ) → Event

-- Where a thread stands, with the local variables that are live there.
pub data Pc : Type 0 where
  idle : Pc  -- outside
  spinning : (op : Op) (expected : ℕ) → Pc  -- before the compare-exchange
  entered : (op : Op) → Pc  -- start of the critical section
  took_sp : (sp : ℕ) → Pc  -- `sp < gp->block_count` holds
  took_top : (sp : ℕ) → Pc  -- before the read of `gp->free[sp]`
  gave_sp : (idx sp : ℕ) → Pc  -- within `gp->free_sp--`
  gave_top : (idx : ℕ) → Pc  -- before the read of `gp->free_sp`
  gave_at : (idx sp : ℕ) → Pc  -- before the write of `gp->free[sp]`
  leaving : (e : Event) → Pc  -- before the release
  crashed : Pc  -- the stack pointer would be negative

-- Between the acquisition of the lock and its release.
abbrev pub critical : Pc → Bool
critical idle = false
critical (spinning op expected) = false
critical _ = true

-- The lock, the pool, and the record of what was done, the latest first.
pub record Shared : Type 0 where
  pub lock : ℕ
  pub gp : Gpool
  pub log : List Event

-- A step in the critical section of `mp_gpool_alloc_stack`.
unfoldable pub take_step : Shared → Pc → Shared × Pc
unfolding index_at
take_step m (entered take) =
    let sp = m.gp.free_sp in
    (m, if ltb sp m.gp.block_count then took_sp sp else leaving (took (pos 0)))
take_step m (took_sp sp) = (record m { gp = record m.gp { free_sp = sp + 1 } }, took_top sp)
take_step m (took_top sp) = (m, leaving (took (m.gp.free sp +ℤ pos sp)))
take_step m p = (m, p)

-- A step in the critical section of `mp_gpool_free`.
unfoldable pub give_step : Shared → Pc → Shared × Pc
give_step m (entered (give idx)) = (m, gave_sp idx m.gp.free_sp)
give_step m (gave_sp idx sp) =
    if sp == 0
    then (m, crashed)
    else (record m { gp = record m.gp { free_sp = sp - 1 } }, gave_top idx)
give_step m (gave_top idx) = (m, gave_at idx m.gp.free_sp)
give_step m (gave_at idx sp) = (
  record m { gp = record m.gp { free = write m.gp.free sp (to_int16 (sub_ℕ idx sp)) } },
  leaving (gave idx),
)
give_step m p = (m, p)

-- One step of a thread: of the acquisition of the lock, of its critical section, or the release.
unfoldable pub thread_step : Shared → Pc → Shared × Pc
unfolding spin_once take_step give_step
thread_step m idle = (m, idle)
thread_step m (spinning op expected) =
    let (ok, lock, expected') = spin_once m.lock expected in
    (record m { lock = lock }, if ok then entered op else spinning op expected')
thread_step m (entered take) = take_step m (entered take)
thread_step m (entered (give idx)) = give_step m (entered (give idx))
thread_step m (took_sp sp) = take_step m (took_sp sp)
thread_step m (took_top sp) = take_step m (took_top sp)
thread_step m (gave_sp idx sp) = give_step m (gave_sp idx sp)
thread_step m (gave_top idx) = give_step m (gave_top idx)
thread_step m (gave_at idx sp) = give_step m (gave_at idx sp)
thread_step m (leaving e) = (record m { lock = 0; log = e ∷ m.log }, idle)
thread_step m crashed = (m, crashed)

-- The threads, by number.
pub record System : Type 0 where
  pub mem : Shared
  pub pc : ℕ → Pc

abbrev pub moved : System → (i : ℕ) → System
moved s i = let r = thread_step s.mem (s.pc i) in record { mem = r.0; pc = write s.pc i r.1 }

-- A thread that is idle calls one of the functions, with its `expected` set to 0; or one takes a step.
pub data Step (n : ℕ) (s : System) : System → Type 0 where
  call :
      (i : ℕ) (op : Op)
      → i < n
      → s.pc i ≡ idle
      → Step n s (record s { pc = write s.pc i (spinning op 0) })
  move : (i : ℕ) → i < n → Step n s (moved s i)

-- `mp_spin_lock_create`, with no thread inside.
abbrev pub init : Gpool → System
init gp = record { mem = record { lock = 0; gp = gp; log = [] }; pc = λ i. idle }

pub data Reach (n : ℕ) (gp : Gpool) : System → Type 0 where
  start : Reach n gp (init gp)
  later : {s t : System} → Reach n gp s → Step n s t → Reach n gp t
