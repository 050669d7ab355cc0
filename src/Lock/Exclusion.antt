-- ===== src/Lock/Exclusion.antt =====
-- What holds in every state that the threads reach.
use native.Mathlib.Decide.{ℕ_discrete}
use mathlib.Core.Path.{subst}
use libmprompt.Base.{
  ℕ, ◌≡◌, ◌≢◌, refl, sym, ◌∙◌, true, false, ◌∷◌, arith, ◌==◌, Bool-cases, ◌⊎◌, inl, inr, write,
  write_self,
}
use libmprompt.Gpool.{Gpool}
use libmprompt.Lock.{
  Op, Event, took, gave, Pc, idle, spinning, entered, took_sp, took_top, gave_sp, gave_top, gave_at,
  leaving, crashed, critical, Shared, thread_step, System, moved, call, move, Reach, start, later,
}
use libmprompt.Lock.Atomic.{Atomic, none_yet, and_took, and_gave}
use libmprompt.Lock.Invariant.{Mid, StaysInside, thread_step-StaysInside}

-- `expected` is 0 before each compare-exchange.
abbrev pub IsReset : Pc → Type 0
IsReset (spinning op expected) = expected ≡ 0
IsReset _ = Unit {0}

-- Who holds the lock, for the pool `a` that the last holder left.
pub data Owner (a : Gpool) (s : System) : Type 0 where
  nobody : s.mem.lock ≡ 0 → s.mem.gp ≡ a → ((j : ℕ) → critical (s.pc j) ≡ false) → Owner a s
  one :
      (i : ℕ)
      → s.mem.lock ≡ 1
      → Mid a (s.pc i) s.mem.gp
      → critical (s.pc i) ≡ true
      → ((j : ℕ) → j ≢ i → critical (s.pc j) ≡ false)
      → Owner a s

pub record IsExclusive (gp : Gpool) (s : System) : Type 0 where
  pub pool : Gpool
  pub atomic : Atomic gp s.mem.log pool
  pub owner : Owner pool s
  pub reset : (j : ℕ) → IsReset (s.pc j)

-- A thread outside of the critical section that stays there.
abbrev Waits : Shared → Shared × Pc → Type 0
Waits m r =
    (r.0.lock ≡ m.lock) × (r.0.gp ≡ m.gp) × (r.0.log ≡ m.log) × (critical r.1 ≡ false) × IsReset r.1

-- A thread that enters.
abbrev Enters : Shared → Shared × Pc → Type 0
Enters m r = (op : Op) × (r.1 ≡ entered op) × (r.0.lock ≡ 1) × (r.0.gp ≡ m.gp) × (r.0.log ≡ m.log)

waits :
    (m : Shared) (p : Pc) → m.lock ≡ 1 → critical p ≡ false → IsReset p → Waits m (thread_step m p)
unfolding thread_step
waits m idle l c z = (refl, refl, refl, refl, tt)
waits m (spinning op expected) l c z = rw (z, l) (refl, refl, refl, refl, refl)
waits m p l c z = ground arith

enters :
    (m : Shared) (p : Pc)
    → m.lock ≡ 0
    → critical p ≡ false
    → IsReset p
    → Waits m (thread_step m p) ⊎ Enters m (thread_step m p)
unfolding thread_step
enters m idle l c z = inl (refl, refl, refl, refl, tt)
enters m (spinning op expected) l c z = inr (rw (z, l) (op, refl, refl, refl, refl))
enters m p l c z = ground arith

write_at :
    (P : Pc → Type 0) (pc : ℕ → Pc) (k j : ℕ) (p : Pc)
    → (j ≢ k → P (pc j))
    → P p
    → P (write pc k p j)
write_at P pc k j p h n = elim (Bool-cases (k == j)) [
  | inl e ↦ rw e n
  | inr e ↦ rw e (h (ground arith))
]

write_other : (pc : ℕ → Pc) (k j : ℕ) (p : Pc) → j ≢ k → write pc k p j ≡ pc j
write_other pc k j p h = let e : (k == j) ≡ false = ground arith in rw e refl

critical-IsReset : (p : Pc) → critical p ≡ true → IsReset p
critical-IsReset (spinning op expected) c = absurd (cc c)
critical-IsReset idle c = tt
critical-IsReset (entered op) c = tt
critical-IsReset (took_sp sp) c = tt
critical-IsReset (took_top sp) c = tt
critical-IsReset (gave_sp idx sp) c = tt
critical-IsReset (gave_top idx) c = tt
critical-IsReset (gave_at idx sp) c = tt
critical-IsReset (leaving e) c = tt
critical-IsReset crashed c = tt

abbrev next : System → ℕ → Shared × Pc → System
next s k r = record { mem = r.0; pc = write s.pc k r.1 }

abbrev IsOutside : Pc → Type 0
IsOutside p = critical p ≡ false

module _ (gp : Gpool) (s : System) (v : IsExclusive gp s) (k : ℕ) where
  Waits-Owner :
      (r : Shared × Pc)
      → Owner v.pool s
      → critical (s.pc k) ≡ false
      → Waits s.mem r
      → Owner v.pool (next s k r)
  Waits-Owner r (nobody l e q) c w =
      nobody (w.0 ∙ l) (w.1 ∙ e) (λ j. write_at IsOutside s.pc k j r.1 (λ h. q j) w.3)
  Waits-Owner r (one i l m d u) c w =
      let ne : i ≢ k = λ h. cc (h, c, d) in
      let at = write_other s.pc k i r.1 ne in
      one i (w.0 ∙ l) (rw (at, w.1) m) (rw at d)
        (λ j h. write_at IsOutside s.pc k j r.1 (λ g. u j h) w.3)

  Waits-IsExclusive :
      (r : Shared × Pc) → critical (s.pc k) ≡ false → Waits s.mem r → IsExclusive gp (next s k r)
  Waits-IsExclusive r c w = record {
    pool = v.pool;
    atomic = rw w.2 v.atomic;
    owner = Waits-Owner r v.owner c w;
    reset = λ j. write_at IsReset s.pc k j r.1 (λ h. v.reset j) w.4;
  }

  Enters-IsExclusive :
      (r : Shared × Pc)
      → s.mem.gp ≡ v.pool
      → ((j : ℕ) → critical (s.pc j) ≡ false)
      → Enters s.mem r
      → IsExclusive gp (next s k r)
  Enters-IsExclusive r e q w =
      let here : write s.pc k r.1 k ≡ entered w.0 = write_self s.pc k r.1 ∙ w.1 in
      record {
        pool = v.pool;
        atomic = rw w.4 v.atomic;
        owner =
            one k w.2 (rw here (w.3 ∙ e)) (rw here refl)
              (λ j h. rw (write_other s.pc k j r.1 h) (q j));
        reset = λ j. write_at IsReset s.pc k j r.1 (λ h. v.reset j) (rw w.1 tt);
      }

  inside-IsExclusive :
      (r : Shared × Pc)
      → s.mem.lock ≡ 1
      → ((j : ℕ) → j ≢ k → critical (s.pc j) ≡ false)
      → StaysInside v.pool s.mem r
      → IsExclusive gp (next s k r)
  inside-IsExclusive r l u w =
      let here = write_self s.pc k r.1 in
      record {
        pool = v.pool;
        atomic = rw w.3 v.atomic;
        owner =
            one k (w.2 ∙ l) (rw here w.0) (rw here w.1)
              (λ j h. rw (write_other s.pc k j r.1 h) (u j h));
        reset = λ j. write_at IsReset s.pc k j r.1 (λ h. v.reset j) (critical-IsReset r.1 w.1);
      }

  -- The release, after which the pool is what the operation has made of it.
  released : (e : Event) → Mid v.pool (leaving e) s.mem.gp → Atomic gp (e ∷ s.mem.log) s.mem.gp
  released (took idx) m = and_took v.atomic m
  released (gave idx) m = and_gave v.atomic m

  leaves-IsExclusive :
      (e : Event)
      → Mid v.pool (leaving e) s.mem.gp
      → ((j : ℕ) → j ≢ k → critical (s.pc j) ≡ false)
      → IsExclusive gp (next s k (thread_step s.mem (leaving e)))
  unfolding thread_step
  leaves-IsExclusive e m u = record {
    pool = s.mem.gp;
    atomic = released e m;
    owner = nobody refl refl (λ j. write_at IsOutside s.pc k j idle (u j) refl);
    reset = λ j. write_at IsReset s.pc k j idle (λ h. v.reset j) tt;
  }

  -- The holder's step.
  holder-IsExclusive :
      (p : Pc)
      → s.mem.lock ≡ 1
      → Mid v.pool p s.mem.gp
      → critical p ≡ true
      → ((j : ℕ) → j ≢ k → critical (s.pc j) ≡ false)
      → IsExclusive gp (next s k (thread_step s.mem p))
  holder-IsExclusive (leaving e) l m c u = leaves-IsExclusive e m u
  holder-IsExclusive p l m c u =
      inside-IsExclusive (thread_step s.mem p) l u
        (thread_step-StaysInside v.pool s.mem p c (ground arith) m)

  moved-IsExclusive : IsExclusive gp (moved s k)
  moved-IsExclusive = moved_by v.owner
    where
      moved_by : Owner v.pool s → IsExclusive gp (moved s k)
      moved_by (nobody l e q) = elim (enters s.mem (s.pc k) l (q k) (v.reset k)) [
        | inl w ↦ Waits-IsExclusive (thread_step s.mem (s.pc k)) (q k) w
        | inr w ↦ Enters-IsExclusive (thread_step s.mem (s.pc k)) e q w
      ]
      moved_by (one i l m c u) = elim (ℕ_discrete i k) [
        | yes e ↦
            holder-IsExclusive (s.pc k) l (subst (λ x. Mid v.pool (s.pc x) s.mem.gp) e m)
              (subst (λ x. critical (s.pc x) ≡ true) e c) (λ j h. u j (λ z. h (z ∙ e)))
        | no ne ↦
            Waits-IsExclusive (thread_step s.mem (s.pc k)) (u k (λ z. ne (sym z)))
              (waits s.mem (s.pc k) l (u k (λ z. ne (sym z))) (v.reset k))
      ]

  -- A call.
  called-IsExclusive :
      (op : Op) → s.pc k ≡ idle → IsExclusive gp (record s { pc = write s.pc k (spinning op 0) })
  called-IsExclusive op e =
      Waits-IsExclusive (s.mem, spinning op 0) (rw e refl) (refl, refl, refl, refl, refl)

pub Reach-IsExclusive : (n : ℕ) (gp : Gpool) {s : System} → Reach n gp s → IsExclusive gp s
Reach-IsExclusive n gp start = record {
  pool = gp;
  atomic = none_yet;
  owner = nobody refl refl (λ j. refl);
  reset = λ j. tt;
}
Reach-IsExclusive n gp (later r (call i op h e)) =
    called-IsExclusive gp _ (Reach-IsExclusive n gp r) i op e
Reach-IsExclusive n gp (later r (move i h)) = moved-IsExclusive gp _ (Reach-IsExclusive n gp r) i
