-- ===== src/Gstack/Alloc.antt =====
-- `mp_gstack_alloc` of src/mprompt/gstack.c: the cached stack that serves first, or a new one.
use libmprompt.Base.{
  ℕ, ◌+◌, ◌≡◌, refl, sym, inl, ap, ◌∙◌, fun_ext, ◌<◌, ◌%◌, ◌&&◌, Bool, true, false, not, Option,
  some, none, List, [], arith, ◌==◌, if◌then◌else◌, write, length,
}
use libmprompt.Os.{Os, mp_base}
use libmprompt.Gstack.Config.{gstack_init, gstack_init-page}
use libmprompt.Gstack.Cache.{
  Thread, contents, Fresh, fresh_gstack, is_good, find_cached, gstack_clear_delayed,
  alloc_initialized, gstack_alloc,
}
use libmprompt.Gstack.Delayed.{IsThread}
use libmprompt.Gstack.Settle.{settle, length-settle_le, gstack_clear_delayed_lem}
use libmprompt.Gstack.Search.{first_good, find_cached_lem}

-- What the call gives for the stack `g` of the cache, 0 for none, in the state `t`.
abbrev pub allocated :
    Os → (extra_size : ℕ) → (fresh : Option Fresh) → (g : ℕ) → Thread → ℕ × Thread
allocated os extra_size fresh g t = if not (g == 0) then (g, t) else elim fresh [
  | none ↦ (0, t)
  | some f ↦ (f.addr, record t { gstacks = write t.gstacks f.addr (fresh_gstack os extra_size f) })
]

-- The logical bottom of a new stack is a multiple of 32.
abbrev pub aligned : Os → Option Fresh → Bool
aligned os none = true
aligned os (some f) = mp_base os f.stack f.stack_size % 32 == 0

module _ (debug : Bool) (os : Os) (sp extra_size : ℕ) where
  is_good-contents :
      (t t' : Thread)
      → ((y : ℕ) → contents t' y ≡ contents t y)
      → (cs : List ℕ)
      → first_good (λ y. is_good debug os sp extra_size (t'.gstacks y)) cs
        ≡ first_good (λ y. is_good debug os sp extra_size (t.gstacks y)) cs
  unfolding is_good
  is_good-contents t t' same cs =
      let good = is_good debug os sp extra_size in
      ap (λ h. first_good (λ y. good (h y)) cs) (fun_ext same)

  gstack_alloc_run :
      (fuel g : ℕ) (fresh : Option Fresh) (t t' t'' : Thread)
      → gstack_clear_delayed fuel debug false os t ≡ some t'
      → find_cached fuel (is_good debug os sp extra_size) 0 t'.cache t' ≡ some (g, t'')
      → (debug && not (aligned os fresh)) ≡ false
      → alloc_initialized fuel debug false os sp extra_size fresh t
        ≡ some (allocated os extra_size fresh g t'')
  unfolding alloc_initialized
  gstack_alloc_run fuel g none t t' t'' settled found al =
      rw (settled, found, alloc_initialized) (ground arith)
  gstack_alloc_run fuel g (some f) t t' t'' settled found al =
      rw (settled, found, alloc_initialized, al) (ground arith)

-- A call for which no exception is active first initializes the configuration, if no call has, and gives
-- the delayed stacks back. Of the cache as it is then it takes the first stack with room for the
-- structure, in a debug build one beyond the caller's, and leaves the others in their order; the counter
-- and the links stay right, and no stack changes but in its link. Only when none serves is the stack a
-- new one, or NULL when the system gives none. In a debug build, the logical bottom of a new stack is
-- taken to be a multiple of 32, and then no assertion fails.
pub gstack_alloc_lem :
    (fuel : ℕ) (debug : Bool) (os_init : Os → Os) (os os' : Os) (sp extra_size : ℕ)
    (fresh : Option Fresh) (t : Thread) (cs ds : List ℕ)
    → gstack_init (λ c. some (os_init c)) none os ≡ some os'
    → (debug && not (aligned os' fresh)) ≡ false
    → IsThread t cs ds
    → length ds + length cs < fuel
    → let r = settle os'.gstack_cache_max_count ds cs t.unmapped in
      let p = first_good (λ y. is_good debug os' sp extra_size (t.gstacks y)) r.0 in
      (t' : Thread) × (gstack_alloc fuel debug false os_init os sp extra_size fresh t
        ≡ some (allocated os' extra_size fresh p.0 t', os'))
      × IsThread t' p.1 []
      × (t'.unmapped ≡ r.1)
      × ((y : ℕ) → contents t' y ≡ contents t y)
unfolding gstack_alloc
gstack_alloc_lem fuel debug os_init os os' sp extra_size fresh t cs ds init al v l =
    let max = os'.gstack_cache_max_count in
    let r = settle max ds cs t.unmapped in
    let good = is_good debug os' sp extra_size in
    let page = gstack_init-page os_init none os os' init in
    let paged : (debug && not (not (os'.page_size == 0))) ≡ false = ground arith in
    let (t1, settled, v1, gone1, same1) =
      gstack_clear_delayed_lem fuel debug os' t cs ds page v (omega arith) in
    let (t2, found, v2, gone2, same2) =
      find_cached_lem fuel good t1 0 t1.cache [] r.0 [] v1 (inl (refl, refl)) v1.cached
        (omega (arith, length-settle_le max ds cs t.unmapped)) in
    rw (sym (is_good-contents debug os' sp extra_size t t1 same1 r.0)) (
      t2,
      rw
          (
            gstack_alloc,
            init,
            paged,
            gstack_alloc_run debug os' sp extra_size fuel _ fresh t t1 t2 settled found al,
          )
          refl,
      v2,
      gone2 ∙ gone1,
      λ y. same2 y ∙ same1 y,
    )
