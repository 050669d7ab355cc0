-- ===== src/Gstack/Delayed.antt =====
-- The lists of cached and of delayed stacks, and `mp_gstack_clear_delayed`.
use libmprompt.Base.{
  ℕ, ◌≡◌, refl, ap, ◌∙◌, ◌≢◌, Bool, true, false, some, List, ◌∷◌, ◌++◌, arith, ltb, if◌then◌else◌,
  write, length, All, All-left, All-right, All-append, has, has-append, Distinct,
  Distinct-move_back, ne_of_has, ==_refl,
}
use libmprompt.Base.Int.{pos, ◌+ℤ◌, ltb_ℤ}
use libmprompt.Base.Chain.{Chain, Chain-agree}
use libmprompt.Os.{Os}
use libmprompt.Gstack.{Gstack}
use libmprompt.Gstack.Cache.{Thread, next_of, unmap, put_back, gstack_free}

-- The cache has the stacks `cs`, and the list of delayed ones has `ds`.
pub record IsThread (t : Thread) (cs ds : List ℕ) : Type 0 where
  pub cached : Chain (next_of t) t.cache cs 0
  pub delayed : Chain (next_of t) t.delayed_free ds 0
  pub distinct : Distinct (cs ++ ds)
  pub each : All (λ x. x ≢ 0) (cs ++ ds)
  pub counted : t.cache_count ≡ pos (length cs)

-- The states after a stack is put on one of the lists.
abbrev pub cached_state : Thread → ℕ → Thread
cached_state t g = record t {
  gstacks = write t.gstacks g (record (t.gstacks g) { next = t.cache });
  cache = g;
  cache_count = t.cache_count +ℤ pos 1;
}

abbrev pub delayed_state : Thread → ℕ → Thread
delayed_state t g = record t {
  gstacks = write t.gstacks g (record (t.gstacks g) { next = t.delayed_free });
  delayed_free = g;
}

put_back-count :
    (os : Os) (t : Thread) (g n : ℕ)
    → t.cache_count ≡ pos n
    → put_back os g false t
      ≡ (if ltb n os.gstack_cache_max_count then cached_state t g else unmap t g)
unfolding put_back
put_back-count os t g n e =
    let same : ltb_ℤ t.cache_count (pos os.gstack_cache_max_count)
        ≡ ltb n os.gstack_cache_max_count =
      rw e (ground arith) in
    rw (same, put_back) refl

pub gstack_free_run :
    (debug : Bool) (os : Os) (t : Thread) (g n : ℕ)
    → os.page_size ≢ 0
    → g ≢ 0
    → t.cache_count ≡ pos n
    → gstack_free debug os g false t
      ≡ some (if ltb n os.gstack_cache_max_count then cached_state t g else unmap t g)
unfolding gstack_free
gstack_free_run debug os t g n page ne e =
    let first : gstack_free debug os g false t ≡ some (put_back os g false t) = ground arith in
    first ∙ ap some (put_back-count os t g n e)

-- The links of the stacks in a list stay when another stack is changed.
pub linked-Chain :
    (t : Thread) (gs : ℕ → Gstack) (a g : ℕ) (r : Gstack) (zs : List ℕ)
    → gs ≡ write t.gstacks g r
    → has g zs ≡ false
    → Chain (next_of t) a zs 0
    → Chain (λ x. (gs x).next) a zs 0
linked-Chain t gs a g r zs e o c =
    Chain-agree (next_of t) (λ x. (gs x).next) a 0 zs
      (λ x i. let ne = ne_of_has g x zs i o in rw e (ground arith)) c

module _ (t : Thread) (g : ℕ) (cs ds : List ℕ) (v : IsThread t cs ds)
    (out : has g (cs ++ ds) ≡ false) (ne_null : g ≢ 0) where
  apart : (has g cs ≡ false) × (has g ds ≡ false)
  apart = ground (arith, has-append g cs ds)

  pub cached_state-IsThread : IsThread (cached_state t g) (g ∷ cs) ds
  cached_state-IsThread =
      let u = cached_state t g in
      let r : Gstack = record (t.gstacks g) { next = t.cache } in
      record {
        cached = (
          refl,
          rw (next_of, ==_refl g) (linked-Chain t u.gstacks t.cache g r cs refl apart.0 v.cached),
        );
        delayed = linked-Chain t u.gstacks t.delayed_free g r ds refl apart.1 v.delayed;
        distinct = (out, v.distinct);
        each = (ne_null, v.each);
        counted = rw v.counted (ground arith);
      }

  delayed_state-IsThread : IsThread (delayed_state t g) cs (g ∷ ds)
  delayed_state-IsThread =
      let u = delayed_state t g in
      let r : Gstack = record (t.gstacks g) { next = t.delayed_free } in
      record {
        cached = linked-Chain t u.gstacks t.cache g r cs refl apart.0 v.cached;
        delayed = (
          refl,
          rw (next_of, ==_refl g)
              (linked-Chain t u.gstacks t.delayed_free g r ds refl apart.1 v.delayed),
        );
        distinct = Distinct-move_back g cs ds (out, v.distinct);
        each =
            All-append (λ x. x ≢ 0) cs (g ∷ ds) (All-left (λ x. x ≢ 0) cs ds v.each)
              (ne_null, All-right (λ x. x ≢ 0) cs ds v.each);
        counted = v.counted;
      }

  pub unmap-IsThread : IsThread (unmap t g) cs ds
  unmap-IsThread = record {
    cached = v.cached;
    delayed = v.delayed;
    distinct = v.distinct;
    each = v.each;
    counted = v.counted;
  }

-- A stack that is given back goes to the delayed list if that is asked for; otherwise to the cache, as
-- long as that has fewer stacks than the limit, and else to the system. The lists keep their other
-- stacks, in order, and the counter stays right.
gstack_free_lem :
    (debug : Bool) (os : Os) (t : Thread) (g : ℕ) (cs ds : List ℕ)
    → os.page_size ≢ 0
    → IsThread t cs ds
    → has g (cs ++ ds) ≡ false
    → g ≢ 0
    → (gstack_free debug os g true t ≡ some (delayed_state t g))
      × IsThread (delayed_state t g) cs (g ∷ ds)
      × (gstack_free debug os g false t
          ≡ some
              (if ltb (length cs) os.gstack_cache_max_count then cached_state t g else unmap t g))
      × IsThread (cached_state t g) (g ∷ cs) ds
      × IsThread (unmap t g) cs ds
gstack_free_lem debug os t g cs ds page v out ne = (
  (unfold gstack_free put_back in ground arith),
  delayed_state-IsThread t g cs ds v out ne,
  gstack_free_run debug os t g (length cs) page ne v.counted,
  cached_state-IsThread t g cs ds v out ne,
  unmap-IsThread t g cs ds v out ne,
)
