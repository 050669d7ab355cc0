-- ===== src/Mmap.antt =====
-- src/mprompt/gstack_mmap.c: the memory of stacks on systems with mmap. What a system call says is an
-- argument; the calls that the program makes are results.
pub mod Growth
pub mod Commit
pub mod System
pub mod Signals
pub mod SigStack
pub mod SigHandler
pub mod Mach
mod Tests
use libmprompt.Base.{
  ℕ, ◌+◌, ◌-◌, ◌*◌, Bool, true, false, ◌&&◌, Option, none, some, List, [], ◌∷◌, ◌==◌, ltb,
  if◌then◌else◌,
}
use libmprompt.Util.{mib, align_down}
use libmprompt.Os.{
  Os, Access, noaccess, noaccess_stack_overflow, access, access_meta, mp_base, push_start,
  mp_unpush,
}
use libmprompt.Gpool.{Gpool, gpools_check_access}
use libmprompt.Gstack.{Gstack, gstack_check_access}

-- An area of memory.
pub record Area : Type 0 where
  pub start : ℕ
  pub size : ℕ

-- `mp_mmap_initial_commit`: the area that it commits; the size is the initial commit.
unfoldable pub initial_area : Os → (stk stk_size : ℕ) → Area
unfolding mp_base push_start
initial_area os stk stk_size =
    if os.use_overcommit then record { start = stk; size = stk_size } else record {
      start = push_start os (mp_base os stk stk_size) os.gstack_initial_commit;
      size = os.gstack_initial_commit;
    }

-- A stack from the system: what `mp_gstack_os_alloc` returns, with its output parameters.
pub record OsStack : Type 0 where
  pub full : ℕ
  pub stk : ℕ
  pub stk_size : ℕ
  pub initial_commit : ℕ

-- `mp_gstack_os_alloc`, or NULL. `reserved` is the result of the reservation, `pooled` the one of
-- `mp_gpool_alloc`, and `commits` whether the commit of an area succeeds.
unfoldable pub gstack_os_alloc :
    Os → (reserved : ℕ) → (pooled : Option (ℕ × ℕ)) → (commits : Area → Bool) → Option OsStack
unfolding initial_area
gstack_os_alloc os reserved pooled commits =
    let stk = reserved + os.gstack_gap in
    let stk_size = os.gstack_size - 2 * os.gstack_gap in
    let area = initial_area os stk stk_size in
    if os.use_gpools
    then elim pooled [
      | none ↦ none
      | some (p, size) ↦
          if commits (initial_area os p size)
          then some (record {
            full = p;
            stk = p;
            stk_size = size;
            initial_commit = (initial_area os p size).size;
          })
          else none
    ]
    else if reserved == 0
    then none
    else if commits area
    then some
        (record { full = reserved; stk = stk; stk_size = stk_size; initial_commit = area.size })
    else none

-- How much more than the page of the fault is committed.
unfoldable pub growth : Os → (used available : ℕ) → ℕ
unfolding align_down
growth os used available =
    let doubled = if os.gstack_grow_fast && ltb 0 used then 2 * used else 0 in
    let limited = if ltb (1 * mib) doubled then 1 * mib else doubled in
    let extra = if ltb available limited then available else limited in
    align_down extra os.page_size

-- The result of `mp_mmap_commit_on_demand`: whether the fault is handled, the area that is made
-- accessible, the current stack afterwards, and the address that the error message for a stack overflow
-- is about, if it is given. The program's error handler, which gets the message, is taken to return.
pub record Fault : Type 0 where
  pub handled : Bool
  pub area : Option Area
  pub current : Option Gstack
  pub overflow : Option ℕ

-- The commit of an accessible page.
unfoldable pub commit_page :
    Os → (current : Option Gstack) → (page stack_size available : ℕ) → (protects : Bool) → Fault
commit_page os current page stack_size available protects =
    let extra = growth os (stack_size - available) available in
    let start = push_start os page extra in
    record {
      handled = true;
      area = some (record { start = start; size = extra + os.page_size });
      current = elim current [
        | none ↦ none
        | some g ↦
            if protects
            then some (record g { committed = mp_unpush os start g.stack g.stack_size })
            else some g
      ];
      overflow = none;
    }

-- A page that is not to be accessed.
unfoldable pub refuse : (kind : Access) → (current : Option Gstack) → (addr : ℕ) → Fault
refuse kind current addr = record {
  handled = false;
  area = none;
  current = current;
  overflow = elim kind [ noaccess_stack_overflow ↦ some addr | _ ↦ none ];
}

-- `mp_mmap_commit_on_demand`; `protects` is whether `mprotect` succeeds.
unfoldable pub commit_on_demand :
    Os
    → (current : Option Gstack) → List Gpool
    → (addr : ℕ) → (in_other_thread protects : Bool) → Fault
unfolding refuse
commit_on_demand os (some g) pools addr in_other_thread protects =
    let page = align_down addr os.page_size in
    let r = gstack_check_access os (some g) page in
    elim r.kind [
      | access ↦ commit_page os (some g) page r.stack_size r.available protects
      | k ↦ refuse k (some g) addr
    ]
commit_on_demand os none pools addr in_other_thread protects =
    let page = align_down addr os.page_size in
    let r = gpools_check_access os page pools in
    if in_other_thread && os.use_gpools
    then elim r.kind [
      | access ↦ commit_page os none page r.stack_size r.available protects
      | k ↦ refuse k none addr
    ]
    else refuse noaccess none addr
