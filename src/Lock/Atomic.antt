-- ===== src/Lock/Atomic.antt =====
-- What the critical sections promise: each operation on the pool as one step.
use libmprompt.Base.{ℕ, ◌≡◌, false, some, List, [], ◌∷◌}
use libmprompt.Base.Int.{ℤ}
use libmprompt.Gpool.{Gpool, pop_free, push_free}
use libmprompt.Lock.{Event, took, gave}

-- The pool after the operations of a record, each done at once, the latest first.
pub data Atomic (gp : Gpool) : List Event → Gpool → Type 0 where
  none_yet : Atomic gp [] gp
  and_took :
      {log : List Event} {a b : Gpool} {idx : ℤ}
      → Atomic gp log a
      → pop_free a ≡ (idx, b)
      → Atomic gp (took idx ∷ log) b
  and_gave :
      {log : List Event} {a b : Gpool} {idx : ℕ}
      → Atomic gp log a
      → push_free false a idx ≡ some b
      → Atomic gp (gave idx ∷ log) b
