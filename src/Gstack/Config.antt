-- ===== src/Gstack/Config.antt =====
-- The configuration: `mp_gstack_init` and `mp_config_default` of src/mprompt/gstack.c.
use libmprompt.Base.{
  ℕ, ◌*◌, ◌%◌, ◌≤◌, ◌<◌, ◌≡◌, refl, Bool, true, false, Option, none, some, arith, ltb,
  if◌then◌else◌, ◌==◌, ◌≢◌, sym, ◌∙◌, ap, Bool-cases, inl, inr,
}
use libmprompt.Base.Int.{ℤ, pos, pos_part, ltb_ℤ}
use libmprompt.Util.{kib, align_up}
use libmprompt.Util.Align.{align_up-mod, le-align_up}
use native.Mathlib.Nat.{mod_self}
use libmprompt.Os.{Os}

-- `mp_config_t`.
pub record Config : Type 0 where
  pub gpool_enable : Bool
  pub stack_grow_fast : Bool
  pub stack_use_overcommit : Bool
  pub stack_reset_decommits : Bool
  pub gpool_max_size : ℤ
  pub stack_max_size : ℤ
  pub stack_exn_guaranteed : ℤ
  pub stack_initial_commit : ℤ
  pub stack_gap_size : ℤ
  pub stack_cache_count : ℤ

-- A setting that is positive replaces the default, in multiples of `unit`.
unfoldable pub setting : (size : ℤ) → (unit default : ℕ) → ℕ
unfolding align_up
setting size unit default = if ltb_ℤ (pos 0) size then align_up (pos_part size) unit else default

-- The user settings of `mp_gstack_init`.
unfoldable pub configure : Option Config → Os → Os
unfolding setting
configure none os = os
configure (some c) os = record os {
  gstack_reset_decommits = c.stack_reset_decommits;
  use_overcommit = c.stack_use_overcommit;
  use_gpools = if c.stack_use_overcommit then false else c.gpool_enable;
  gstack_grow_fast = if c.stack_use_overcommit then false else c.stack_grow_fast;
  gpool_max_size = setting c.gpool_max_size (64 * kib) os.gpool_max_size;
  gstack_size = setting c.stack_max_size (4 * kib) os.gstack_size;
  gstack_exn_guaranteed = setting c.stack_exn_guaranteed (4 * kib) os.gstack_exn_guaranteed;
  gstack_initial_commit = setting c.stack_initial_commit (4 * kib) os.gstack_initial_commit;
  gstack_gap = setting c.stack_gap_size (4 * kib) os.gstack_gap;
  gstack_cache_max_count = pos_part c.stack_cache_count;
}

-- The rest of `mp_gstack_init`, after the initialization of the system.
unfoldable pub page_align : Os → Os
unfolding align_up
page_align os =
    let page = if os.page_size == 0 then 4 * kib else os.page_size in
    let size = align_up os.gstack_size page in
    let commit =
      if os.gstack_initial_commit == 0 then page else align_up os.gstack_initial_commit page in
    record os {
      page_size = page;
      gstack_size = size;
      gstack_exn_guaranteed = align_up os.gstack_exn_guaranteed page;
      gstack_gap = align_up os.gstack_gap page;
      gpool_max_size = align_up os.gpool_max_size page;
      gstack_initial_commit = if ltb size commit then size else commit;
    }

-- `mp_gstack_init`, the first time; `os_init` is what `mp_gstack_os_init` does to the configuration,
-- or a failure. Later calls change nothing of it.
unfoldable pub gstack_init : (os_init : Os → Option Os) → Option Config → Os → Option Os
unfolding configure page_align
gstack_init os_init config os =
    if os.page_size == 0
    then elim (os_init (configure config os)) [ none ↦ none | some os' ↦ some (page_align os') ]
    else some os

-- `mp_config_default`, on a system other than Windows.
unfoldable pub config_default : Os → Config
config_default os = record {
  gpool_enable = true;
  stack_grow_fast = true;
  stack_use_overcommit = false;
  stack_reset_decommits = false;
  gpool_max_size = pos os.gpool_max_size;
  stack_max_size = pos os.gstack_size;
  stack_initial_commit = pos os.gstack_initial_commit;
  stack_exn_guaranteed = pos os.gstack_exn_guaranteed;
  stack_cache_count = pos os.gstack_cache_max_count;
  stack_gap_size = pos os.gstack_gap;
}

-- What the rest of the program relies on.
pub record IsConfigured (os : Os) : Type 0 where
  pub page : 0 < os.page_size
  pub size_aligned : os.gstack_size % os.page_size ≡ 0
  pub exn_aligned : os.gstack_exn_guaranteed % os.page_size ≡ 0
  pub gap_aligned : os.gstack_gap % os.page_size ≡ 0
  pub gpool_aligned : os.gpool_max_size % os.page_size ≡ 0
  pub commit_aligned : os.gstack_initial_commit % os.page_size ≡ 0
  pub commit_fits : os.gstack_initial_commit ≤ os.gstack_size
  pub commit_some : 0 < os.gstack_size → 0 < os.gstack_initial_commit

-- The initial commit, before it is limited to the stack.
rounded_commit : (commit page : ℕ) → ℕ
rounded_commit commit page = if commit == 0 then page else align_up commit page

rounded_commit-mod : (c page : ℕ) → 0 < page → rounded_commit c page % page ≡ 0
unfolding rounded_commit
rounded_commit-mod c page h = ground (arith, align_up-mod c page h, mod_self page)

rounded_commit-pos : (c page : ℕ) → 0 < page → 0 < rounded_commit c page
unfolding rounded_commit
rounded_commit-pos c page h = ground (arith, le-align_up c page h)

limited-IsConfigured :
    (os : Os) (page : ℕ)
    → 0 < page
    → let size = align_up os.gstack_size page in
      let commit = rounded_commit os.gstack_initial_commit page in
      IsConfigured (record os {
        page_size = page;
        gstack_size = size;
        gstack_exn_guaranteed = align_up os.gstack_exn_guaranteed page;
        gstack_gap = align_up os.gstack_gap page;
        gpool_max_size = align_up os.gpool_max_size page;
        gstack_initial_commit = if ltb size commit then size else commit;
      })
limited-IsConfigured os page h =
    let size = align_up os.gstack_size page in
    let commit = rounded_commit os.gstack_initial_commit page in
    record {
      page = h;
      size_aligned = align_up-mod os.gstack_size page h;
      exn_aligned = align_up-mod os.gstack_exn_guaranteed page h;
      gap_aligned = align_up-mod os.gstack_gap page h;
      gpool_aligned = align_up-mod os.gpool_max_size page h;
      commit_aligned = ground (
        arith,
        align_up-mod os.gstack_size page h,
        rounded_commit-mod os.gstack_initial_commit page h,
      );
      commit_fits = ground arith;
      commit_some = λ k. ground (arith, rounded_commit-pos os.gstack_initial_commit page h);
    }

page_align-IsConfigured : (os : Os) → IsConfigured (page_align os)
unfolding page_align rounded_commit
page_align-IsConfigured os =
    limited-IsConfigured os (if os.page_size == 0 then 4 * kib else os.page_size) (ground arith)

-- The initialization, if the system's part succeeds: every size is a multiple of the page size, which is
-- not 0, and the initial commit is a part of the stack that is not empty, if the stack is not.
gstack_init_lem :
    (os_init : Os → Option Os) (config : Option Config) (os os' : Os)
    → os.page_size ≡ 0
    → os_init (configure config os) ≡ some os'
    → (os'' : Os) × (gstack_init os_init config os ≡ some os'')
      × IsConfigured os''
      × (os''.use_gpools ≡ os'.use_gpools)
unfolding gstack_init page_align
gstack_init_lem os_init config os os' z e =
    let first : (os.page_size == 0) ≡ true = ground arith in
    (page_align os', rw (first, e, gstack_init) refl, page_align-IsConfigured os', refl)

-- The page size is known after an initialization whose system part succeeds, and after a later one.
pub gstack_init-page :
    (os_init : Os → Os) (config : Option Config) (os os' : Os)
    → gstack_init (λ c. some (os_init c)) config os ≡ some os'
    → os'.page_size ≢ 0
unfolding gstack_init
gstack_init-page os_init config os os' e = elim (Bool-cases (os.page_size == 0)) [
  | inl z ↦
      let first : some (page_align (os_init (configure config os))) ≡ some os' =
        sym (rw (gstack_init, z) refl) ∙ e in
      let same : page_align (os_init (configure config os)) ≡ os' = cc first in
      let v = (page_align-IsConfigured (os_init (configure config os))).page in
      ground (arith, ap (λ o. o.page_size) same, v)
  | inr z ↦
      let later : some os ≡ some os' = sym (rw (gstack_init, z) refl) ∙ e in
      let same : os ≡ os' = cc later in ground (arith, ap (λ o. o.page_size) same)
]
