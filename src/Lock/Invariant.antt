-- ===== src/Lock/Invariant.antt =====
-- Where the pool stands while a thread is in its critical section, and that each step keeps to it.
use libmprompt.Base.{
  ℕ, ◌-◌, ◌<◌, ◌≡◌, refl, sym, ap, Bool, true, false, some, arith, ltb, ◌==◌, ltb→lt, lt→ltb,
  Bool-cases, inl, inr,
}
use libmprompt.Base.Int.{pos, ◌+ℤ◌}
use libmprompt.Gpool.{Gpool, pop_free, push_free, index_at}
use libmprompt.Gpool.Stack.{popped}
use libmprompt.Lock.{
  take, give, took, gave, Pc, idle, spinning, entered, took_sp, took_top, gave_sp, gave_top,
  gave_at, leaving, crashed, critical, Shared, thread_step,
}

-- The pool `gp`, as the thread at a place has made it of the pool `a` that it found.
abbrev pub Mid : Gpool → Pc → Gpool → Type 0
Mid a (entered op) gp = gp ≡ a
Mid a (took_sp sp) gp = (gp ≡ a) × (sp ≡ a.free_sp) × (sp < a.block_count)
Mid a (took_top sp) gp = (gp ≡ popped a) × (sp ≡ a.free_sp) × (sp < a.block_count)
Mid a (gave_sp idx sp) gp = (gp ≡ a) × (sp ≡ a.free_sp)
Mid a (gave_top idx) gp = (gp ≡ record a { free_sp = a.free_sp - 1 }) × (0 < a.free_sp)
Mid a (gave_at idx sp) gp =
    (gp ≡ record a { free_sp = a.free_sp - 1 }) × (0 < a.free_sp) × (sp ≡ a.free_sp - 1)
Mid a (leaving (took idx)) gp = pop_free a ≡ (idx, gp)
Mid a (leaving (gave idx)) gp = push_free false a idx ≡ some gp
Mid a crashed gp = (gp ≡ a) × (a.free_sp ≡ 0)
Mid a _ gp = Unit {0}

-- A step inside the critical section.
abbrev pub StaysInside : Gpool → Shared → Shared × Pc → Type 0
StaysInside a m r =
    Mid a r.1 r.0.gp × (critical r.1 ≡ true) × (r.0.lock ≡ m.lock) × (r.0.log ≡ m.log)

abbrev pub is_leaving : Pc → Bool
is_leaving (leaving e) = true
is_leaving _ = false

module _ (a : Gpool) (m : Shared) where
  take_none : m.gp ≡ a → ltb m.gp.free_sp m.gp.block_count ≡ false → pop_free a ≡ (pos 0, m.gp)
  unfolding pop_free
  take_none e t = rw (sym e, pop_free, t) refl

  take_some :
      (sp : ℕ)
      → m.gp ≡ popped a
      → sp ≡ a.free_sp
      → sp < a.block_count
      → pop_free a ≡ (m.gp.free sp +ℤ pos sp, m.gp)
  unfolding pop_free index_at
  take_some sp e f h =
      let room : ltb a.free_sp a.block_count ≡ true =
        lt→ltb a.free_sp a.block_count (omega arith) in
      rw (f, e, room) refl

  inside_take : m.gp ≡ a → StaysInside a m (thread_step m (entered take))
  unfolding thread_step
  inside_take e = elim (Bool-cases (ltb m.gp.free_sp m.gp.block_count)) [
    | inl t ↦
        let room = ltb→lt m.gp.free_sp m.gp.block_count t in
        rw t
          ((e, ap Gpool.free_sp e, omega (arith, room, ap Gpool.block_count e)), refl, refl, refl)
    | inr t ↦ rw t (take_none e t, refl, refl, refl)
  ]

  inside_gave_sp :
      (idx sp : ℕ) → m.gp ≡ a → sp ≡ a.free_sp → StaysInside a m (thread_step m (gave_sp idx sp))
  unfolding thread_step
  inside_gave_sp idx sp e f = elim (Bool-cases (sp == 0)) [
    | inl t ↦ rw t ((e, ground arith), refl, refl, refl)
    | inr t ↦ rw t ((rw (e, f) refl, ground arith), refl, refl, refl)
  ]

  give_done :
      (idx sp : ℕ)
      → m.gp ≡ record a { free_sp = a.free_sp - 1 }
      → 0 < a.free_sp
      → sp ≡ a.free_sp - 1
      → Mid a (thread_step m (gave_at idx sp)).1 (thread_step m (gave_at idx sp)).0.gp
  unfolding thread_step push_free
  give_done idx sp e h f =
      let ne : (a.free_sp == 0) ≡ false = ground arith in rw (e, f, push_free, ne) refl

-- A thread that holds the lock and does not release it keeps to the place where the pool stands.
pub thread_step-StaysInside :
    (a : Gpool) (m : Shared) (p : Pc)
    → critical p ≡ true
    → is_leaving p ≡ false
    → Mid a p m.gp
    → StaysInside a m (thread_step m p)
unfolding thread_step
thread_step-StaysInside a m idle c l h = absurd (cc c)
thread_step-StaysInside a m (spinning op expected) c l h = absurd (cc c)
thread_step-StaysInside a m (entered take) c l h = inside_take a m h
thread_step-StaysInside a m (entered (give idx)) c l h = ((h, ap Gpool.free_sp h), refl, refl, refl)
thread_step-StaysInside a m (took_sp sp) c l h = ((rw (h.0, h.1) refl, h.1, h.2), refl, refl, refl)
thread_step-StaysInside a m (took_top sp) c l h = (take_some a m sp h.0 h.1 h.2, refl, refl, refl)
thread_step-StaysInside a m (gave_sp idx sp) c l h = inside_gave_sp a m idx sp h.0 h.1
thread_step-StaysInside a m (gave_top idx) c l h =
    ((h.0, h.1, ap Gpool.free_sp h.0), refl, refl, refl)
thread_step-StaysInside a m (gave_at idx sp) c l h =
    (give_done a m idx sp h.0 h.1 h.2, refl, refl, refl)
thread_step-StaysInside a m (leaving e) c l h = absurd (cc l)
thread_step-StaysInside a m crashed c l h = (h, refl, refl, refl)
