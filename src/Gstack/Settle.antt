-- ===== src/Gstack/Settle.antt =====
-- `mp_gstack_clear_delayed` of src/mprompt/gstack.c: where each delayed stack goes.
use libmprompt.Base.{
  ℕ, zero, suc, ◌<◌, ◌≤◌, ◌+◌, ◌≡◌, refl, ap, ◌∙◌, ◌≢◌, Bool, true, false, some, List, [], ◌∷◌,
  ◌++◌, arith, ◌==◌, ltb, if◌then◌else◌, length, All-left, All-right, All-append, has,
  Distinct-move, Bool-cases, inl, inr,
}
use libmprompt.Os.{Os}
use libmprompt.Gstack.Cache.{
  Thread, next_of, contents, unmap, gstack_free, clear_from, gstack_clear_delayed,
}
use libmprompt.Gstack.Delayed.{
  IsThread, cached_state, gstack_free_run, cached_state-IsThread, unmap-IsThread,
}

-- The delayed stacks `ds` in turn go to the cache `cs` while it has room, and then to the system: the
-- cache and the list of what the system got, afterwards.
abbrev pub settle : (max : ℕ) → (ds cs gone : List ℕ) → List ℕ × List ℕ
settle max [] cs gone = (cs, gone)
settle max (d ∷ ds) cs gone =
    let room = settle max ds (d ∷ cs) gone in
    let full = settle max ds cs (d ∷ gone) in if ltb (length cs) max then room else full

pub length-settle_le :
    (max : ℕ) (ds cs gone : List ℕ) → length (settle max ds cs gone).0 ≤ length ds + length cs
length-settle_le max [] cs gone = omega arith
length-settle_le max (d ∷ ds) cs gone =
    let room = length-settle_le max ds (d ∷ cs) gone in
    let full = length-settle_le max ds cs (d ∷ gone) in ground arith

-- The state in which the loop frees the first delayed stack.
abbrev dequeued : Thread → ℕ → Thread
dequeued t d = record t { delayed_free = next_of t d }

dequeued-IsThread :
    (t : Thread) (d : ℕ) (cs ds : List ℕ)
    → IsThread t cs (d ∷ ds)
    → IsThread (dequeued t d) cs ds × (has d (cs ++ ds) ≡ false) × (d ≢ 0)
dequeued-IsThread t d cs ds v =
    let apart = Distinct-move d cs ds v.distinct in
    let right = All-right (λ x. x ≢ 0) cs (d ∷ ds) v.each in
    (
      record {
        cached = v.cached;
        delayed = v.delayed.1;
        distinct = apart.1;
        each = All-append (λ x. x ≢ 0) cs ds (All-left (λ x. x ≢ 0) cs (d ∷ ds) v.each) right.1;
        counted = v.counted;
      },
      apart.0,
      right.0,
    )

clear_from-next :
    (fuel : ℕ) (debug : Bool) (os : Os) (d : ℕ) (t t' : Thread)
    → d ≢ 0
    → gstack_free debug os d false (dequeued t d) ≡ some t'
    → clear_from (suc fuel) debug os d t ≡ clear_from fuel debug os (next_of t d) t'
unfolding clear_from
clear_from-next fuel debug os d t t' ne e =
    let first : (d == 0) ≡ false = ground arith in rw (first, e, clear_from) refl

-- Where the loop ends.
abbrev Settled : (fuel : ℕ) → Bool → Os → Thread → (cs ds : List ℕ) → Type 0
Settled fuel debug os t cs ds =
    let r = settle os.gstack_cache_max_count ds cs t.unmapped in
    (t' : Thread) × (clear_from fuel debug os t.delayed_free t ≡ some t')
    × IsThread t' r.0 []
    × (t'.unmapped ≡ r.1)
    × ((y : ℕ) → contents t' y ≡ contents t y)

clear_from-lem :
    (fuel : ℕ) (debug : Bool) (os : Os) (t : Thread) (cs ds : List ℕ)
    → os.page_size ≢ 0
    → IsThread t cs ds
    → length ds < fuel
    → Settled fuel debug os t cs ds
clear_from-lem zero debug os t cs ds page v l = absurd (omega arith)
clear_from-lem (suc fuel) debug os t cs [] page v l =
    (t, (unfold clear_from in ground (arith, v.delayed)), v, refl, λ y. refl)
clear_from-lem (suc fuel) debug os t cs (d ∷ ds) page v l =
    let (w, out, ne) = dequeued-IsThread t d cs ds v in
    let u = dequeued t d in
    let max = os.gstack_cache_max_count in
    let free = gstack_free_run debug os u d (length cs) page ne w.counted in
    elim (Bool-cases (ltb (length cs) max)) [
      | inl room ↦
          let step : gstack_free debug os d false u ≡ some (cached_state u d) =
            free ∙ ap (λ b. some (if b then cached_state u d else unmap u d)) room in
          let (t', run, end, gone, same) =
            clear_from-lem fuel debug os (cached_state u d) (d ∷ cs) ds page
              (cached_state-IsThread u d cs ds w out ne) (omega arith) in
          (
            t',
            ap (λ a. clear_from (suc fuel) debug os a t) v.delayed.0
                ∙ clear_from-next fuel debug os d t (cached_state u d) ne step
                ∙ run,
            rw room end,
            rw room gone,
            λ y. same y ∙ ground arith,
          )
      | inr full ↦
          let step : gstack_free debug os d false u ≡ some (unmap u d) =
            free ∙ ap (λ b. some (if b then cached_state u d else unmap u d)) full in
          let (t', run, end, gone, same) =
            clear_from-lem fuel debug os (unmap u d) cs ds page (unmap-IsThread u d cs ds w out ne)
              (omega arith) in
          (
            t',
            ap (λ a. clear_from (suc fuel) debug os a t) v.delayed.0
                ∙ clear_from-next fuel debug os d t (unmap u d) ne step
                ∙ run,
            rw full end,
            rw full gone,
            same,
          )
    ]

clear_delayed_run :
    (fuel : ℕ) (debug : Bool) (os : Os) (t t' : Thread) (d : ℕ)
    → t.delayed_free ≡ d
    → d ≢ 0
    → clear_from fuel debug os t.delayed_free t ≡ some t'
    → t'.delayed_free ≡ 0
    → gstack_clear_delayed fuel debug false os t ≡ some t'
unfolding gstack_clear_delayed
clear_delayed_run fuel debug os t t' d at ne run end =
    let first : (t.delayed_free == 0) ≡ false = ground arith in
    let last : (t'.delayed_free == 0) ≡ true = ground arith in
    rw (first, run, last, gstack_clear_delayed) (ground arith)

-- When no exception is active, the delayed stacks are all given back, the latest first: to the cache
-- while it has room, and then to the system. None is left on the delayed list, none is lost, the
-- fields other than the links stay, and no assertion fails.
pub gstack_clear_delayed_lem :
    (fuel : ℕ) (debug : Bool) (os : Os) (t : Thread) (cs ds : List ℕ)
    → os.page_size ≢ 0
    → IsThread t cs ds
    → length ds < fuel
    → let r = settle os.gstack_cache_max_count ds cs t.unmapped in
      (t' : Thread) × (gstack_clear_delayed fuel debug false os t ≡ some t')
      × IsThread t' r.0 []
      × (t'.unmapped ≡ r.1)
      × ((y : ℕ) → contents t' y ≡ contents t y)
gstack_clear_delayed_lem fuel debug os t cs [] page v l =
    (t, (unfold gstack_clear_delayed in ground (arith, v.delayed)), v, refl, λ y. refl)
gstack_clear_delayed_lem fuel debug os t cs (d ∷ ds) page v l =
    let (t', run, end, gone, same) = clear_from-lem fuel debug os t cs (d ∷ ds) page v l in
    let ne = (All-right (λ x. x ≢ 0) cs (d ∷ ds) v.each).0 in
    (t', clear_delayed_run fuel debug os t t' d v.delayed.0 ne run end.delayed, end, gone, same)
