-- ===== src/Mmap/Growth.antt =====
-- What a page fault on the current stack commits.
use native.Mathlib.Nat.{mul-le-mul_right, le-div_iff_mul-le, div-lt_iff_lt-mul}
use libmprompt.Base.{
  none, ℕ, ◌+◌, ◌-◌, ◌*◌, ◌/◌, ◌≤◌, ◌<◌, ◌≡◌, refl, ◌∙◌, Bool, true, false, some, List, arith, ltb,
  if◌then◌else◌, ◌&&◌,
}
use libmprompt.Util.{align_down, mib}
use libmprompt.Util.Align.{align_down-le, lt-align_down}
use libmprompt.Os.{Os, access, mp_unpush, push_start}
use libmprompt.Gpool.{Gpool}
use libmprompt.Gstack.{Gstack, gstack_check_access}
use libmprompt.Mmap.{Area, growth, commit_page, commit_on_demand}

growth-le :
    (os : Os) (used available : ℕ)
    → 0 < os.page_size
    → (growth os used available ≤ available) × (growth os used available ≤ 1 * mib)
unfolding growth
growth-le os used available h =
    let doubled = if os.gstack_grow_fast && ltb 0 used then 2 * used else 0 in
    let limited = if ltb (1 * mib) doubled then 1 * mib else doubled in
    let extra = if ltb available limited then available else limited in
    let cap : (extra ≤ available) × (extra ≤ 1 * mib) = ground arith in
    (
      omega (arith, align_down-le extra os.page_size h, cap),
      omega (arith, align_down-le extra os.page_size h, cap),
    )

module _ (os : Os) (g : Gstack) (addr a b : ℕ) (page_size : 0 < os.page_size)
    (start_aligned : g.stack ≡ a * os.page_size) (size_aligned : g.stack_size ≡ b * os.page_size)
    (low : g.stack ≤ addr) (high : addr < g.stack + g.stack_size) where
  page : ℕ
  page = align_down addr os.page_size

  page_mul : page ≡ addr / os.page_size * os.page_size
  unfolding page align_down
  page_mul = ground arith

  -- The page of the fault lies on the stack.
  page_on_stack : (g.stack ≤ page) × (page + os.page_size ≤ g.stack + g.stack_size)
  page_on_stack =
      let q = addr / os.page_size in
      let n = os.page_size in
      let first : a ≤ q =
        (le-div_iff_mul-le {k = n} {x = a} {y = addr} page_size).1 (omega arith) in
      let last : q < a + b =
        (div-lt_iff_lt-mul {k = n} {x = addr} {y = a + b} page_size).1 (omega arith) in
      (
        omega (arith, page_mul, mul-le-mul_right {m = a} {n = q} n first),
        omega (arith, page_mul, mul-le-mul_right {m = q + 1} {n = a + b} n (omega arith)),
      )

  page_range : (page ≤ addr) × (addr < page + os.page_size)
  unfolding page
  page_range =
      (align_down-le addr os.page_size page_size, lt-align_down addr os.page_size page_size)

  extra : ℕ
  extra = growth os (g.stack_size - (page - g.stack)) (page - g.stack)

  checked :
      os.stack_grows_down ≡ true
      → let r = gstack_check_access os (some g) page in
        (r.kind ≡ access) × (r.stack_size ≡ g.stack_size) × (r.available ≡ page - g.stack)
  unfolding gstack_check_access
  checked d = let p = page_on_stack in ground arith

  dispatched :
      (pools : List Gpool) (in_other_thread protects : Bool)
      → os.stack_grows_down ≡ true
      → commit_on_demand os (some g) pools addr in_other_thread protects
        ≡ commit_page os (some g) page g.stack_size (page - g.stack) protects
  unfolding commit_on_demand page
  dispatched pools in_other_thread protects d =
      let c = checked d in rw (commit_on_demand, c.0, c.1, c.2) refl

  committed_page :
      (protects : Bool)
      → os.stack_grows_down ≡ true
      → commit_page os (some g) page g.stack_size (page - g.stack) protects ≡ record {
        handled = true;
        area = some (record { start = page - extra; size = extra + os.page_size });
        current = some (
            if protects
            then record g { committed = g.stack + g.stack_size - (page - extra) }
            else g);
        overflow = none;
      }
  unfolding commit_page mp_unpush push_start extra
  committed_page true d = rw (d, commit_page, mp_unpush, push_start) refl
  committed_page false d = rw (d, commit_page, push_start) refl

-- A fault on the current stack, which starts and ends at page boundaries and grows down: the area that
-- is made accessible has the address of the fault, lies on the stack, and is at most 1 MiB and a page
-- long; the stack's record of what is committed reaches to its start. If the system refuses, the record
-- stays.
pub commit_on_demand_lem :
    (os : Os) (g : Gstack) (pools : List Gpool) (addr a b : ℕ) (in_other_thread protects : Bool)
    → 0 < os.page_size
    → os.stack_grows_down ≡ true
    → g.stack ≡ a * os.page_size
    → g.stack_size ≡ b * os.page_size
    → g.stack ≤ addr
    → addr < g.stack + g.stack_size
    → (area : Area) × (commit_on_demand os (some g) pools addr in_other_thread protects ≡ record {
      handled = true;
      area = some area;
      current =
          some
            (if protects then record g { committed = g.stack + g.stack_size - area.start } else g);
      overflow = none;
    })
      × (g.stack ≤ area.start)
      × (area.start + area.size ≤ g.stack + g.stack_size)
      × (area.start ≤ addr)
      × (addr < area.start + area.size)
      × (area.size ≤ 1 * mib + os.page_size)
unfolding page extra
commit_on_demand_lem os g pools addr a b in_other_thread protects h d i j low high =
    let p = page os g addr a b h i j low high in
    let e = extra os g addr a b h i j low high in
    let c = checked os g addr a b h i j low high d in
    let le = growth-le os (g.stack_size - (p - g.stack)) (p - g.stack) h in
    let s = page_on_stack os g addr a b h i j low high in
    let r = page_range os g addr a b h i j low high in
    (
      record { start = p - e; size = e + os.page_size },
      dispatched os g addr a b h i j low high pools in_other_thread protects d
          ∙ committed_page os g addr a b h i j low high protects d,
      omega (arith, s, le),
      omega (arith, s, le),
      omega (arith, r),
      omega (arith, r, le),
      omega (arith, le),
    )
