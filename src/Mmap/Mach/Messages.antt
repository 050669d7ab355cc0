-- ===== src/Mmap/Mach/Messages.antt =====
-- The replies of the exception thread of src/mprompt/gstack_mmap_mach.c.
use libmprompt.Base.{
  ℕ, zero, suc, ◌+◌, ◌≤◌, ◌≡◌, refl, ap, ◌∙◌, Bool, true, false, List, [], ◌∷◌, map, All, arith,
  ltb,
}
use libmprompt.Os.{Os}
use libmprompt.Gpool.{Gpool}
use libmprompt.Mmap.Mach.{
  Kern, Request, Reply, Event, received, failed, mach_reply, answer, exc_thread,
}

-- A request that is received after some failures.
pub record Message : Type 0 where
  pub failures : ℕ
  pub req : Request
  pub pools : List Gpool
  pub protects : Bool

abbrev pub failing : ℕ → List Event → List Event
failing zero es = es
failing (suc n) es = failed ∷ failing n es

abbrev pub events : List Message → List Event → List Event
events [] es = es
events (m ∷ ms) es = failing m.failures (received m.req m.pools m.protects ∷ events ms es)

abbrev pub reply_to : Kern → Os → (garbage : ℕ → ℕ) → Message → Reply
reply_to k os garbage m = mach_reply k garbage m.req (answer k os m.req m.pools m.protects)

module _ (k : Kern) (os : Os) (garbage : ℕ → ℕ) where
  failing_run :
      (n tries tries' : ℕ) (es : List Event)
      → tries + n ≡ tries'
      → tries' ≤ 3
      → exc_thread k os garbage tries (failing n es) ≡ exc_thread k os garbage tries' es
  unfolding exc_thread
  failing_run zero tries tries' es e h = ap (λ t. exc_thread k os garbage t es) (omega arith)
  failing_run (suc n) tries tries' es e h =
      let going : ltb 3 (tries + 1) ≡ false = ground arith in
      rw (exc_thread, going) (failing_run n (tries + 1) tries' es (omega arith) h)

  failing_ends : (es : List Event) → exc_thread k os garbage 0 (failing 4 es) ≡ ([], true)
  unfolding exc_thread
  failing_ends es = refl

  failing_waits : (j : ℕ) → exc_thread k os garbage 0 (failing j []) ≡ ([], ltb 3 j)
  failing_waits zero = unfold exc_thread in refl
  failing_waits (suc zero) = unfold exc_thread in refl
  failing_waits (suc (suc zero)) = unfold exc_thread in refl
  failing_waits (suc (suc (suc zero))) = unfold exc_thread in refl
  failing_waits (suc (suc (suc (suc j)))) =
      failing_ends (failing j []) ∙ ap (λ (b : Bool). ([], b)) (ground arith)

  answered :
      (ms : List Message) (es : List Event) (ends : Bool)
      → All (λ m. m.failures ≤ 3) ms
      → exc_thread k os garbage 0 es ≡ ([], ends)
      → exc_thread k os garbage 0 (events ms es) ≡ (map (reply_to k os garbage) ms, ends)
  unfolding exc_thread
  answered [] es ends few e = e
  answered (m ∷ ms) es ends few e =
      failing_run m.failures 0 m.failures (received m.req m.pools m.protects ∷ events ms es)
        (omega arith) few.0
      ∙ ap (λ r. (reply_to k os garbage m ∷ r.0, r.1)) (answered ms es ends few.1 e)

-- The thread answers every request that it receives, once and in order, as long as no more than three
-- receives fail before it. The fourth failure in a row, and no other, ends it: what comes then is not
-- answered.
pub exc_thread_lem :
    (k : Kern) (os : Os) (garbage : ℕ → ℕ) (ms : List Message) (j : ℕ) (es : List Event)
    → All (λ m. m.failures ≤ 3) ms
    → (exc_thread k os garbage 0 (events ms (failing j []))
        ≡ (map (reply_to k os garbage) ms, ltb 3 j))
      × (exc_thread k os garbage 0 (events ms (failing 4 es))
          ≡ (map (reply_to k os garbage) ms, true))
exc_thread_lem k os garbage ms j es few = (
  answered k os garbage ms (failing j []) (ltb 3 j) few (failing_waits k os garbage j),
  answered k os garbage ms (failing 4 es) true few (failing_ends k os garbage es),
)
