-- ===== src/Gstack/Search.antt =====
-- `mp_gstack_alloc` of src/mprompt/gstack.c: the search for a cached stack.
use mathlib.Core.List.{append_assoc}
use mathlib.Core.Path.{subst}
use libmprompt.Base.{
  ℕ, zero, suc, ◌≡◌, refl, sym, ap, ◌∙◌, ◌≢◌, ◌⊎◌, inl, inr, ◌<◌, Bool, true, false, some, List, [],
  ◌∷◌, ◌++◌, arith, ◌==◌, if◌then◌else◌, write, length, All, All-left, All-right, All-append, has,
  has-append, Distinct, Distinct-middle, Distinct-move, Bool-cases, ne_of_has, ==_refl,
  length-append,
}
use libmprompt.Base.Int.{pos, dec}
use libmprompt.Base.Chain.{Chain, Chain-agree, Chain-cut, Chain-join}
use libmprompt.Gstack.{Gstack}
use libmprompt.Gstack.Cache.{Thread, next_of, contents, take_cached, find_cached}
use libmprompt.Gstack.Delayed.{IsThread, linked-Chain}

-- The first stack of a list that serves, or 0, and the other stacks in order.
abbrev pub first_good : (ℕ → Bool) → List ℕ → ℕ × List ℕ
first_good good [] = (0, [])
first_good good (x ∷ xs) =
    let rest = first_good good xs in if good x then (x, xs) else (rest.0, x ∷ rest.1)

-- `prev` is what the search has in that variable when it has passed the stacks `done`.
abbrev Behind : (prev : ℕ) → (done : List ℕ) → Type 0
Behind prev done = ((prev ≡ 0) × (done ≡ [])) ⊎ ((b : List ℕ) × (done ≡ b ++ prev ∷ []))

-- Lists without one of their elements.
module _ (x : ℕ) (done cs ds : List ℕ) where
  Distinct-without :
      Distinct ((done ++ x ∷ cs) ++ ds)
      → (has x ((done ++ cs) ++ ds) ≡ false) × Distinct ((done ++ cs) ++ ds)
  Distinct-without d =
      let r = Distinct-move x done (cs ++ ds) (subst Distinct (append_assoc done (x ∷ cs) ds) d) in
      rw (append_assoc done cs ds) r

  All-without :
      All (λ y. y ≢ 0) ((done ++ x ∷ cs) ++ ds) → (x ≢ 0) × All (λ y. y ≢ 0) ((done ++ cs) ++ ds)
  All-without a =
      let P : ℕ → Type 0 = λ y. y ≢ 0 in
      let h = All-left P (done ++ x ∷ cs) ds a in
      let r = All-right P done (x ∷ cs) h in
      (
        r.0,
        All-append P (done ++ cs) ds (All-append P done cs (All-left P done (x ∷ cs) h) r.1)
            (All-right P (done ++ x ∷ cs) ds a),
      )

  length-without : length (done ++ x ∷ cs) ≡ suc (length (done ++ cs))
  length-without = ground (arith, length-append done (x ∷ cs), length-append done cs)

append_assoc₃ :
    (b : List ℕ) (p : ℕ) (cs ds : List ℕ) → ((b ++ p ∷ []) ++ cs) ++ ds ≡ b ++ p ∷ (cs ++ ds)
append_assoc₃ b p cs ds =
    ap (λ l. l ++ ds) (append_assoc b (p ∷ []) cs) ∙ append_assoc b (p ∷ cs) ds

-- The chain when `p` links past `x`.
skip_link :
    (t : Thread) (p x : ℕ) (b cs : List ℕ)
    → has p b ≡ false
    → has p cs ≡ false
    → Chain (next_of t) t.cache (b ++ p ∷ x ∷ cs) 0
    → Chain
        (λ y. (write t.gstacks p (record (t.gstacks p) { next = next_of t x }) y).next)
        t.cache
        (b ++ p ∷ cs)
        0
skip_link t p x b cs ob ocs c =
    let gs = write t.gstacks p (record (t.gstacks p) { next = next_of t x }) in
    let (front, back) = Chain-cut (next_of t) t.cache 0 p b (x ∷ cs) c in
    Chain-join (λ y. (gs y).next) t.cache 0 p b cs
      (Chain-agree (next_of t) (λ y. (gs y).next) t.cache p b
        (λ y i. let ne = ne_of_has p y b i ob in ground arith) front)
      (rw (==_refl p) (
        linked-Chain t gs (next_of t x) p (record (t.gstacks p) { next = next_of t x }) cs refl ocs
          back.1))

-- A state with the links `links` outside `x`, and the stack `x` unlinked.
abbrev taken : Thread → (links : ℕ → Gstack) → (cache x : ℕ) → Thread
taken t links cache x = record t {
  gstacks = write links x (record (links x) { next = 0 });
  cache = cache;
  cache_count = dec t.cache_count;
}

module _ (t : Thread) (x : ℕ) (cs ds : List ℕ) where
  taken-IsThread :
      (links : ℕ → Gstack) (cache : ℕ)
      → Chain (λ y. (links y).next) cache cs 0
      → Chain (λ y. (links y).next) t.delayed_free ds 0
      → Distinct (cs ++ ds)
      → has x (cs ++ ds) ≡ false
      → All (λ y. y ≢ 0) (cs ++ ds)
      → t.cache_count ≡ pos (suc (length cs))
      → IsThread (taken t links cache x) cs ds
  taken-IsThread links cache c d distinct out each counted =
      let u = record t { gstacks = links } in
      let gs = write links x (record (links x) { next = 0 }) in
      record {
        cached =
            linked-Chain u gs cache x (record (links x) { next = 0 }) cs refl
              (ground (arith, has-append x cs ds)) c;
        delayed =
            linked-Chain u gs t.delayed_free x (record (links x) { next = 0 }) ds refl
              (ground (arith, has-append x cs ds)) d;
        distinct = distinct;
        each = each;
        counted = rw counted (ground arith);
      }

take_first-IsThread :
    (t : Thread) (x : ℕ) (cs ds : List ℕ)
    → IsThread t (x ∷ cs) ds
    → IsThread (take_cached 0 x t) cs ds
unfolding take_cached
take_first-IsThread t x cs ds v =
    let (out, distinct) = Distinct-without x [] cs ds v.distinct in
    taken-IsThread t x cs ds t.gstacks (next_of t x) v.cached.1 v.delayed distinct out
      (All-without x [] cs ds v.each).1 v.counted

take_behind :
    (t : Thread) (prev x : ℕ)
    → prev ≢ 0
    → take_cached prev x t
      ≡ taken t (write t.gstacks prev (record (t.gstacks prev) { next = next_of t x })) t.cache x
unfolding take_cached
take_behind t prev x ne = let first : (prev == 0) ≡ false = ground arith in rw first refl

take_behind-IsThread :
    (t : Thread) (p x : ℕ) (b cs ds : List ℕ)
    → IsThread t ((b ++ p ∷ []) ++ x ∷ cs) ds
    → IsThread (take_cached p x t) ((b ++ p ∷ []) ++ cs) ds
take_behind-IsThread t p x b cs ds v =
    let done = b ++ p ∷ [] in
    let r : Gstack = record (t.gstacks p) { next = next_of t x } in
    let links = write t.gstacks p r in
    let (out, distinct) = Distinct-without x done cs ds v.distinct in
    let each = (All-without x done cs ds v.each).1 in
    let P : ℕ → Type 0 = λ y. y ≢ 0 in
    let ne = (All-right P b (p ∷ (cs ++ ds)) (subst (All P) (append_assoc₃ b p cs ds) each)).0 in
    let apart =
      Distinct-middle p b (cs ++ ds) (subst Distinct (append_assoc₃ b p cs ds) distinct) in
    let front =
      subst (λ l. Chain (next_of t) t.cache l 0) (append_assoc b (p ∷ []) (x ∷ cs)) v.cached in
    rw (take_behind t p x ne) (
      taken-IsThread t x (done ++ cs) ds links t.cache
        (rw (append_assoc b (p ∷ []) cs)
          (skip_link t p x b cs apart.0 (ground (arith, has-append p cs ds)) front))
        (linked-Chain t links t.delayed_free p r ds refl (ground (arith, has-append p cs ds))
          v.delayed)
        distinct out each (v.counted ∙ ap pos (length-without x done cs ds)))

-- The stack that the search takes leaves the cache, and the others stay in order.
take_cached-IsThread :
    (t : Thread) (prev x : ℕ) (done cs ds : List ℕ)
    → IsThread t (done ++ x ∷ cs) ds
    → Behind prev done
    → IsThread (take_cached prev x t) (done ++ cs) ds
take_cached-IsThread t prev x done cs ds v (inl (at, e)) =
    rw (at, e) (take_first-IsThread t x cs ds (subst (λ l. IsThread t (l ++ x ∷ cs) ds) e v))
take_cached-IsThread t prev x done cs ds v (inr (b, e)) =
    rw e (take_behind-IsThread t prev x b cs ds (subst (λ l. IsThread t (l ++ x ∷ cs) ds) e v))

take_cached-contents :
    (t : Thread) (prev x y : ℕ) → contents (take_cached prev x t) y ≡ contents t y
unfolding take_cached
take_cached-contents t prev x y = ground arith

-- What the search finds, from `g` on, when it has passed the stacks `done`.
abbrev Found : (fuel : ℕ) → (Gstack → Bool) → Thread → (prev g : ℕ) → (done cs ds : List ℕ) → Type 0
Found fuel good t prev g done cs ds =
    let r = first_good (λ y. good (t.gstacks y)) cs in
    (t' : Thread) × (find_cached fuel good prev g t ≡ some (r.0, t'))
    × IsThread t' (done ++ r.1) ds
    × (t'.unmapped ≡ t.unmapped)
    × ((y : ℕ) → contents t' y ≡ contents t y)

module _ (fuel : ℕ) (good : Gstack → Bool) (t : Thread) (prev g : ℕ) (ne : g ≢ 0) where
  find_cached-hit :
      good (t.gstacks g) ≡ true
      → find_cached (suc fuel) good prev g t ≡ some (g, take_cached prev g t)
  unfolding find_cached
  find_cached-hit e = let first : (g == 0) ≡ false = ground arith in rw (first, e, find_cached) refl

  find_cached-miss :
      good (t.gstacks g) ≡ false
      → find_cached (suc fuel) good prev g t ≡ find_cached fuel good g (next_of t g) t
  unfolding find_cached
  find_cached-miss e =
      let first : (g == 0) ≡ false = ground arith in rw (first, e, find_cached) refl

pub find_cached_lem :
    (fuel : ℕ) (good : Gstack → Bool) (t : Thread) (prev g : ℕ) (done cs ds : List ℕ)
    → IsThread t (done ++ cs) ds
    → Behind prev done
    → Chain (next_of t) g cs 0
    → length cs < fuel
    → Found fuel good t prev g done cs ds
find_cached_lem zero good t prev g done cs ds v b c l = absurd (omega arith)
find_cached_lem (suc fuel) good t prev g done [] ds v b c l =
    (t, (unfold find_cached in ground arith), v, refl, λ y. refl)
find_cached_lem (suc fuel) good t prev g done (x ∷ cs) ds v b c l =
    let ne = (All-without x done cs ds v.each).0 in
    elim (Bool-cases (good (t.gstacks x))) [
      | inl hit ↦
          rw (c.0, hit)
            (
              take_cached prev x t,
              find_cached-hit fuel good t prev x ne hit,
              take_cached-IsThread t prev x done cs ds v b,
              (unfold take_cached in ground arith),
              take_cached-contents t prev x,
            )
      | inr miss ↦
          let passed = append_assoc done (x ∷ []) in
          let (t', run, end, gone, same) =
            find_cached_lem fuel good t x (next_of t x) (done ++ x ∷ []) cs ds
              (subst (λ l. IsThread t l ds) (sym (passed cs)) v) (inr (done, refl)) c.1
              (omega arith) in
          rw (c.0, miss)
            (
              t',
              find_cached-miss fuel good t prev x ne miss ∙ run,
              subst (λ l. IsThread t' l ds) (passed (first_good (λ y. good (t.gstacks y)) cs).1)
                  end,
              gone,
              same,
            )
    ]
