-- ===== src/Mmap/Commit.antt =====
-- What a new stack has committed at first.
use libmprompt.Base.{
  ℕ, ◌+◌, ◌-◌, ◌*◌, ◌≤◌, ◌≡◌, ◌≢◌, refl, Bool, true, false, Option, some, arith, if◌then◌else◌,
}
use libmprompt.Os.{Os, mp_base, push_start}
use libmprompt.Mmap.{Area, OsStack, initial_area, gstack_os_alloc}

initial_area-inside :
    (os : Os) (stk stk_size : ℕ)
    → os.gstack_initial_commit ≤ stk_size
    → let area = initial_area os stk stk_size in
      (stk ≤ area.start)
      × (area.start + area.size ≤ stk + stk_size)
      × (mp_base os stk stk_size
          ≡ (if os.stack_grows_down then area.start + area.size else area.start))
unfolding initial_area mp_base push_start
initial_area-inside os stk stk_size h = ground arith

-- Without pools, a stack that the system gives lies between two gaps in its reserved memory, and what
-- is committed at first is a part of it that starts at its base, if the initial commit fits and the
-- gaps leave a stack.
gstack_os_alloc_lem :
    (os : Os) (reserved : ℕ) (pooled : Option (ℕ × ℕ)) (commits : Area → Bool)
    → os.use_gpools ≡ false
    → reserved ≢ 0
    → 2 * os.gstack_gap ≤ os.gstack_size
    → os.gstack_initial_commit ≤ os.gstack_size - 2 * os.gstack_gap
    → let stk = reserved + os.gstack_gap in
      let size = os.gstack_size - 2 * os.gstack_gap in
      let area = initial_area os stk size in
      commits area ≡ true
      → (r : OsStack) × (gstack_os_alloc os reserved pooled commits ≡ some r)
        × (r.full + os.gstack_gap ≡ r.stk)
        × (r.stk + r.stk_size + os.gstack_gap ≡ r.full + os.gstack_size)
        × (r.initial_commit ≡ area.size)
        × (r.stk ≤ area.start)
        × (area.start + area.size ≤ r.stk + r.stk_size)
        × (mp_base os r.stk r.stk_size
            ≡ (if os.stack_grows_down then area.start + area.size else area.start))
gstack_os_alloc_lem os reserved pooled commits g ne gaps fits ok =
    let stk = reserved + os.gstack_gap in
    let size = os.gstack_size - 2 * os.gstack_gap in
    let inside = initial_area-inside os stk size fits in
    (
      record {
        full = reserved;
        stk = stk;
        stk_size = size;
        initial_commit = (initial_area os stk size).size;
      },
      (unfold gstack_os_alloc in ground arith),
      refl,
      omega arith,
      refl,
      inside.0,
      inside.1,
      inside.2,
    )
