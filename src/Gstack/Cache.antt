-- ===== src/Gstack/Cache.antt =====
-- The thread's cache of stacks, and its list of delayed ones, of src/mprompt/gstack.c: linked lists
-- through the stack structures.
use libmprompt.Base.{
  ℕ, zero, suc, ◌%◌, Bool, false, not, ◌&&◌, ◌||◌, Option, none, some, List, ◌∷◌, ◌==◌, ltb, leb,
  if◌then◌else◌, write,
}
use libmprompt.Base.Int.{ℤ, pos, ◌+ℤ◌, dec, ltb_ℤ, eq_ℤ}
use libmprompt.Util.{align_up}
use libmprompt.Os.{Os, mp_base}
use libmprompt.Gstack.{Gstack}
use libmprompt.Gstack.Config.{gstack_init}

-- The thread's variables and the structures. `unmapped` lists the structures that were freed, with
-- their stacks given back to the system, the latest first.
pub record Thread : Type 0 where
  pub gstacks : ℕ → Gstack
  pub cache : ℕ
  pub cache_count : ℤ
  pub delayed_free : ℕ
  pub unmapped : List ℕ

abbrev pub next_of : Thread → ℕ → ℕ
next_of t g = (t.gstacks g).next

-- The stacks' fields other than the link.
abbrev pub contents : Thread → ℕ → Gstack
contents t y = record (t.gstacks y) { next = 0 }

-- A failed assertion of a debug build has no result.
abbrev require {ℓ} : {A : Type ℓ} → Bool → Bool → Option A → Option A
require debug b rest = if debug && not b then none else rest

abbrev set_next : Thread → (g next : ℕ) → Thread
set_next t g next = record t { gstacks = write t.gstacks g (record (t.gstacks g) { next = next }) }

abbrev pub unmap : Thread → ℕ → Thread
unmap t g = record t { unmapped = g ∷ t.unmapped }

-- `mp_gstack_free`, after its checks.
unfoldable pub put_back : Os → (g : ℕ) → (delay : Bool) → Thread → Thread
put_back os g delay t =
    if delay
    then record (set_next t g t.delayed_free) { delayed_free = g }
    else if ltb_ℤ t.cache_count (pos os.gstack_cache_max_count)
    then record (set_next t g t.cache) { cache = g; cache_count = t.cache_count +ℤ pos 1 }
    else unmap t g

-- `mp_gstack_free`.
unfoldable pub gstack_free : (debug : Bool) → Os → (g : ℕ) → (delay : Bool) → Thread → Option Thread
unfolding put_back
gstack_free debug os g delay t =
    if g == 0
    then some t
    else require debug (not (os.page_size == 0)) (some (put_back os g delay t))

-- The loop of `mp_gstack_clear_delayed`, from `g` on; the fuel bounds the length of the list.
unfoldable pub clear_from : (fuel : ℕ) → (debug : Bool) → Os → (g : ℕ) → Thread → Option Thread
clear_from zero debug os g t = none
clear_from (suc fuel) debug os g t =
    let next = next_of t g in
    if g == 0
    then some t
    else elim (gstack_free debug os g false (record t { delayed_free = next })) [
      | none ↦ none
      | some t' ↦ clear_from fuel debug os next t'
    ]

-- `mp_gstack_clear_delayed`; `unwinding` says whether a C++ exception is active.
unfoldable pub gstack_clear_delayed :
    (fuel : ℕ) → (debug unwinding : Bool) → Os → Thread → Option Thread
gstack_clear_delayed fuel debug unwinding os t =
    if t.delayed_free == 0 || unwinding
    then some t
    else elim (clear_from fuel debug os t.delayed_free t) [
      | none ↦ none
      | some t' ↦ require debug (t'.delayed_free == 0) (some t')
    ]

-- Whether a cached stack serves: with room for the structure of `extra_size` bytes and, in a debug
-- build, further along the address space than the current stack at `sp`.
unfoldable pub is_good : (debug : Bool) → Os → (sp extra_size : ℕ) → Gstack → Bool
is_good debug os sp extra_size g =
    leb extra_size g.extra_size
    && (not debug || (if os.stack_grows_down then ltb g.stack sp else ltb sp g.stack))

-- Take the stack `g` behind `prev` out of the cache.
unfoldable pub take_cached : (prev g : ℕ) → Thread → Thread
take_cached prev g t =
    let t' =
      if prev == 0 then record t { cache = next_of t g } else set_next t prev (next_of t g) in
    set_next (record t' { cache_count = dec t.cache_count }) g 0

-- The search of `mp_gstack_alloc` in the cache: the stack, or NULL.
unfoldable pub find_cached :
    (fuel : ℕ) → (good : Gstack → Bool) → (prev g : ℕ) → Thread → Option (ℕ × Thread)
unfolding take_cached
find_cached zero good prev g t = none
find_cached (suc fuel) good prev g t =
    let rest = find_cached fuel good g (next_of t g) t in
    if g == 0
    then some (0, t)
    else if good (t.gstacks g)
    then some (g, take_cached prev g t)
    else rest

-- The loop of `mp_gstack_clear_cache`, from `g` on.
unfoldable pub unmap_from : (fuel : ℕ) → (g : ℕ) → Thread → Option Thread
unmap_from zero g t = none
unmap_from (suc fuel) g t =
    let next = next_of t g in
    let t' = record t { cache = next; cache_count = dec t.cache_count } in
    if g == 0 then some t else unmap_from fuel next (unmap t' g)

-- `mp_gstack_clear_cache`.
unfoldable pub gstack_clear_cache :
    (fuel : ℕ) → (debug unwinding : Bool) → Os → Thread → Option Thread
unfolding gstack_clear_delayed unmap_from
gstack_clear_cache fuel debug unwinding os t =
    elim (gstack_clear_delayed fuel debug unwinding os t) [
      | none ↦ none
      | some t' ↦ elim (unmap_from fuel t'.cache t') [
        | none ↦ none
        | some t'' ↦ require debug (t''.cache == 0 && eq_ℤ t''.cache_count (pos 0)) (some t'')
      ]
    ]

-- What `mp_malloc` and `mp_gstack_os_alloc` give for a new stack.
pub record Fresh : Type 0 where
  pub addr : ℕ
  pub extra : ℕ
  pub full : ℕ
  pub stack : ℕ
  pub stack_size : ℕ
  pub initial_commit : ℕ

-- The structure of a new stack.
unfoldable pub fresh_gstack : Os → (extra_size : ℕ) → Fresh → Gstack
unfolding align_up
fresh_gstack os extra_size f = record {
  next = 0;
  full = f.full;
  full_size = os.gstack_size;
  stack = f.stack;
  stack_size = f.stack_size;
  initial_commit = f.initial_commit;
  committed = f.initial_commit;
  extra_size = align_up extra_size 8;
  extra = f.extra;
}

-- `mp_gstack_alloc`, after the initialization: the stack, or NULL if nothing is cached and `fresh` is a
-- failure. A debug build also fills the committed part of a new stack.
unfoldable pub alloc_initialized :
    (fuel : ℕ)
    → (debug unwinding : Bool) → Os
    → (sp extra_size : ℕ) → (fresh : Option Fresh) → Thread
    → Option (ℕ × Thread)
unfolding gstack_clear_delayed is_good find_cached fresh_gstack
alloc_initialized fuel debug unwinding os sp extra_size fresh t =
    elim (gstack_clear_delayed fuel debug unwinding os t) [
      | none ↦ none
      | some t' ↦ elim (find_cached fuel (is_good debug os sp extra_size) 0 t'.cache t') [
        | none ↦ none
        | some (g, t'') ↦ if not (g == 0) then some (g, t'') else elim fresh [
          | none ↦ some (0, t'')
          | some f ↦ require debug (mp_base os f.stack f.stack_size % 32 == 0) (
              some (
                f.addr,
                record t'' { gstacks = write t''.gstacks f.addr (fresh_gstack os extra_size f) },
              ))
        ]
      ]
    ]

-- `mp_gstack_alloc`, with the configuration afterwards; `os_init` is what `mp_gstack_os_init`, which
-- succeeds on every system, does to the configuration.
unfoldable pub gstack_alloc :
    (fuel : ℕ)
    → (debug unwinding : Bool) → (os_init : Os → Os) → Os
    → (sp extra_size : ℕ) → (fresh : Option Fresh) → Thread
    → Option ((ℕ × Thread) × Os)
unfolding alloc_initialized gstack_init
gstack_alloc fuel debug unwinding os_init os sp extra_size fresh t =
    elim (gstack_init (λ c. some (os_init c)) none os) [
      | none ↦ none
      | some os' ↦
          require debug (not (os'.page_size == 0))
            (elim (alloc_initialized fuel debug unwinding os' sp extra_size fresh t) [
              | none ↦ none
              | some r ↦ some (r, os')
            ])
    ]
