-- ===== src/Windows/PageFault.antt =====
-- The page fault handler of src/mprompt/gstack_win.c, and the limits of a stack that the thread
-- information block keeps.
use libmprompt.Base.{
  ℕ, ◌+◌, ◌-◌, ◌*◌, Bool, true, false, not, ◌&&◌, ◌||◌, Option, none, some, ltb, leb, if◌then◌else◌,
}
use libmprompt.Base.Int.{ℤ, pos, pos_part, sub_ℕ, ltb_ℤ, leb_ℤ}
use libmprompt.Util.{mib, align_down}
use libmprompt.Os.{Os, access, mp_push, mp_unpush, push_start}
use libmprompt.Mmap.{Area}
use libmprompt.Gstack.{Gstack, gstack_base, gstack_check_access}
use libmprompt.Windows.{align_down_ssize, guard_size}

-- The fields of `MP_TIB_S` that the program uses.
pub record Tib : Type 0 where
  pub stack_base : ℕ
  pub stack_limit : ℕ
  pub stack_real_limit : ℕ

-- The result of `mp_win_tib_get_stack_extent` and its output parameters; `sp` is 0 outside of the stack.
pub record Extent : Type 0 where
  pub sp : ℕ
  pub commit_available : ℤ
  pub available : ℤ
  pub stack_size : ℤ
  pub base : ℕ

-- `mp_win_tib_get_stack_extent`, at the current stack pointer.
unfoldable pub get_stack_extent : (sp : ℕ) → Tib → Extent
get_stack_extent sp tib =
    let instack = ltb tib.stack_real_limit sp && leb sp tib.stack_base in
    record {
      sp = if instack then sp else 0;
      commit_available = if instack then sub_ℕ sp tib.stack_limit else pos 0;
      available = if instack then sub_ℕ sp tib.stack_real_limit else pos 0;
      stack_size = sub_ℕ tib.stack_base tib.stack_real_limit;
      base = tib.stack_base;
    }

-- What `mp_gstack_enter` tells the system of the stack that it enters: the limits, on Windows.
unfoldable pub enter_limits : Os → (guaranteed : ℕ) → Gstack → Tib
unfolding gstack_base guard_size mp_push
enter_limits os guaranteed g =
    let base = gstack_base os g in
    let commit_limit = mp_push os base g.committed in
    record {
      stack_base = base;
      stack_limit = commit_limit;
      stack_real_limit =
          if os.use_gpools || os.gstack_grow_fast
          then mp_push os commit_limit (guard_size os guaranteed)
          else mp_push os base g.stack_size;
    }

-- The exceptions that the handler tells apart.
pub data ExnCode : Type 0 where
  cpp_exn stack_overflow access_violation other_exn : ExnCode

abbrev pub is_cpp : ExnCode → Bool
is_cpp cpp_exn = true
is_cpp _ = false

-- The address that the handler looks at; `info` is the address of the fault.
unfoldable pub fault_addr : Tib → ExnCode → (info : ℕ) → ℕ
fault_addr tib code info = if is_cpp code then tib.stack_limit - 8 else info

-- How much more than the page is to be committed, before it is rounded; a negative value if there is no
-- room for the guard pages.
unfoldable pub win_extra : Os → ExnCode → (used available guard : ℕ) → ℤ
win_extra os code used available guard =
    let least = if is_cpp code then sub_ℕ os.gstack_exn_guaranteed os.page_size else pos 0 in
    let doubled =
      if os.gstack_grow_fast && (not (is_cpp code) && ltb 0 used) then pos (2 * used) else least in
    let limited = if ltb_ℤ (pos (1 * mib)) doubled then pos (1 * mib) else doubled in
    let room = sub_ℕ available guard in if ltb_ℤ room limited then room else limited

unfoldable pub win_growth : Os → ExnCode → (used available guard : ℕ) → ℤ
unfolding align_down_ssize win_extra
win_growth os code used available guard =
    align_down_ssize (win_extra os code used available guard) os.page_size

-- The result of the handler: whether the program continues at the fault, the areas for which
-- `VirtualAlloc` was called, to commit them and to guard them, and the state afterwards.
pub record WinFault : Type 0 where
  pub continues : Bool
  pub committed : Option Area
  pub guarded : Option Area
  pub tib : Tib
  pub current : Option Gstack

-- `EXCEPTION_CONTINUE_SEARCH`, with nothing done.
abbrev pub search_on : Tib → Option Gstack → WinFault
search_on tib current = record {
  continues = false;
  committed = none;
  guarded = none;
  tib = tib;
  current = current;
}

-- The commit of `extra` and a page.
unfoldable pub extend_stack :
    Os
    → (guard : ℕ) → Tib
    → ExnCode
    → (g : Gstack) → (page extra : ℕ) → (commits guards : Area → Bool) → WinFault
unfolding push_start mp_unpush
extend_stack os guard tib code g page extra commits guards =
    let extend = push_start os page extra in
    let area : Area = record { start = extend; size = extra + os.page_size } in
    let gpage = push_start os extend guard in
    let guard_pages : Area = record { start = gpage; size = guard } in
    if not (commits area)
    then record (search_on tib (some g)) { committed = some area }
    else if not (guards guard_pages)
    then record (search_on tib (some g)) { committed = some area; guarded = some guard_pages }
    else record {
      continues = not (is_cpp code);
      committed = some area;
      guarded = some guard_pages;
      tib = record tib { stack_limit = extend; stack_real_limit = gpage };
      current = some (record g { committed = mp_unpush os extend g.stack g.stack_size });
    }

-- The handler on one of the three exceptions, for the page of its address on the stack `g`.
unfoldable pub handle_page :
    Os
    → (guaranteed : ℕ) → (g : Gstack) → Tib
    → ExnCode
    → (page : ℕ) → (commits guards : Area → Bool) → WinFault
unfolding win_growth extend_stack guard_size
handle_page os guaranteed g tib code page commits guards =
    let r = gstack_check_access os (some g) page in
    let guard = guard_size os guaranteed in
    let extra = win_growth os code (r.stack_size - r.available) r.available guard in
    let extended = extend_stack os guard tib code g page (pos_part extra) commits guards in
    if is_cpp code && leb os.gstack_exn_guaranteed r.commit_available
    then search_on tib (some g)
    else elim r.kind [
      | access ↦ if leb_ℤ (pos 0) extra then extended else search_on tib (some g)
      | _ ↦ search_on tib (some g)
    ]

unfoldable pub handle_fault :
    Os
    → (guaranteed : ℕ) → (current : Option Gstack) → Tib
    → ExnCode
    → (info : ℕ) → (commits guards : Area → Bool) → WinFault
unfolding fault_addr handle_page
handle_fault os guaranteed none tib code info commits guards = search_on tib none
handle_fault os guaranteed (some g) tib code info commits guards =
    handle_page os guaranteed g tib code (align_down (fault_addr tib code info) os.page_size)
      commits guards

-- `mp_gstack_win_page_fault`.
unfoldable pub win_page_fault :
    Os
    → (guaranteed : ℕ) → (current : Option Gstack) → Tib
    → ExnCode
    → (info : ℕ) → (commits guards : Area → Bool) → WinFault
unfolding handle_fault
win_page_fault os guaranteed current tib other_exn info commits guards = search_on tib current
win_page_fault os guaranteed current tib code info commits guards =
    handle_fault os guaranteed current tib code info commits guards
