-- ===== src/Gstack/Clear.antt =====
-- `mp_gstack_clear_cache` of src/mprompt/gstack.c.
use libmprompt.Base.{
  ℕ, zero, suc, ◌+◌, ◌≡◌, refl, ap, ◌∙◌, ◌≢◌, ◌<◌, Bool, true, false, some, List, [], ◌∷◌, arith,
  ◌==◌, length,
}
use libmprompt.Base.Int.{pos, dec}
use libmprompt.Os.{Os}
use libmprompt.Gstack.Cache.{
  Thread, next_of, unmap, unmap_from, gstack_clear_delayed, gstack_clear_cache,
}
use libmprompt.Gstack.Delayed.{IsThread}
use libmprompt.Gstack.Settle.{settle, length-settle_le, gstack_clear_delayed_lem}

-- The stacks `cs` given back in turn, after `gone`: the latest is first.
abbrev pub given_back : (cs gone : List ℕ) → List ℕ
given_back [] gone = gone
given_back (c ∷ cs) gone = given_back cs (c ∷ gone)

-- The state in which the loop frees the first cached stack.
abbrev uncached : Thread → ℕ → Thread
uncached t g = record t { cache = next_of t g; cache_count = dec t.cache_count }

uncached-IsThread :
    (t : Thread) (c : ℕ) (cs : List ℕ)
    → IsThread t (c ∷ cs) []
    → IsThread (unmap (uncached t c) c) cs []
uncached-IsThread t c cs v = record {
  cached = v.cached.1;
  delayed = v.delayed;
  distinct = v.distinct.1;
  each = v.each.1;
  counted = rw v.counted (ground arith);
}

unmap_from_lem :
    (fuel : ℕ) (t : Thread) (cs : List ℕ)
    → IsThread t cs []
    → length cs < fuel
    → (t' : Thread) × (unmap_from fuel t.cache t ≡ some t')
      × IsThread t' [] []
      × (t'.unmapped ≡ given_back cs t.unmapped)
unmap_from_lem zero t cs v l = absurd (omega arith)
unmap_from_lem (suc fuel) t [] v l = (t, (unfold unmap_from in ground (arith, v.cached)), v, refl)
unmap_from_lem (suc fuel) t (c ∷ cs) v l =
    let u = unmap (uncached t c) c in
    let (t', run, end, gone) =
      unmap_from_lem fuel u cs (uncached-IsThread t c cs v) (omega arith) in
    let first : (c == 0) ≡ false = ground (arith, v.each) in
    let step : unmap_from (suc fuel) c t ≡ unmap_from fuel u.cache u =
      unfold unmap_from in rw (first, unmap_from) refl in
    (t', ap (λ a. unmap_from (suc fuel) a t) v.cached.0 ∙ step ∙ run, end, gone)

clear_cache_run :
    (fuel : ℕ) (debug : Bool) (os : Os) (t t' t'' : Thread)
    → gstack_clear_delayed fuel debug false os t ≡ some t'
    → unmap_from fuel t'.cache t' ≡ some t''
    → t''.cache ≡ 0
    → t''.cache_count ≡ pos 0
    → gstack_clear_cache fuel debug false os t ≡ some t''
unfolding gstack_clear_cache
clear_cache_run fuel debug os t t' t'' settled freed empty none_left =
    let ends : (t''.cache == 0) ≡ true = ground arith in
    rw (settled, freed, ends, none_left, gstack_clear_cache) (ground arith)

-- When no exception is active, the delayed stacks for which the cache has no room, and then all the
-- stacks in the cache, are given back to the system in order. Both lists are empty at the end, the
-- counter is 0, and no assertion fails.
pub gstack_clear_cache_lem :
    (fuel : ℕ) (debug : Bool) (os : Os) (t : Thread) (cs ds : List ℕ)
    → os.page_size ≢ 0
    → IsThread t cs ds
    → length ds + length cs < fuel
    → let r = settle os.gstack_cache_max_count ds cs t.unmapped in
      (t' : Thread) × (gstack_clear_cache fuel debug false os t ≡ some t')
      × IsThread t' [] []
      × (t'.unmapped ≡ given_back r.0 r.1)
gstack_clear_cache_lem fuel debug os t cs ds page v l =
    let max = os.gstack_cache_max_count in
    let r = settle max ds cs t.unmapped in
    let (t1, settled, v1, gone1, same) =
      gstack_clear_delayed_lem fuel debug os t cs ds page v (omega arith) in
    let (t2, freed, v2, gone2) =
      unmap_from_lem fuel t1 r.0 v1 (omega (arith, length-settle_le max ds cs t.unmapped)) in
    (
      t2,
      clear_cache_run fuel debug os t t1 t2 settled freed v2.cached v2.counted,
      v2,
      gone2 ∙ ap (given_back r.0) gone1,
    )
