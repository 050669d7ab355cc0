-- ===== src/Windows/Overflow.antt =====
-- What the page fault handler on Windows does on an access to the current stack.
use libmprompt.Base.{
  ℕ, ◌+◌, ◌-◌, ◌*◌, ◌≤◌, ◌<◌, ◌≡◌, ◌≢◌, refl, ap, ◌∙◌, Bool, true, false, Option, some, none, arith,
  Bool-cases, inl, inr, not, ◌&&◌, if◌then◌else◌, leb,
}
use libmprompt.Base.Int.{pos, pos_part, leb_ℤ}
use libmprompt.Util.{align_down, mib}
use libmprompt.Util.Align.{align_down-le, lt-align_down, page_between}
use libmprompt.Os.{Os, access, mp_unpush, push_start}
use libmprompt.Mmap.{Area}
use libmprompt.Gstack.{Gstack, gstack_check_access}
use libmprompt.Windows.{guard_size}
use libmprompt.Windows.PageFault.{
  Tib, ExnCode, cpp_exn, stack_overflow, access_violation, other_exn, is_cpp, WinFault, search_on,
  fault_addr, win_growth, extend_stack, handle_fault, handle_page, win_page_fault,
}
use libmprompt.Windows.Growth.{win_growth-fits, win_growth-full}

-- A stack that starts and ends at page boundaries and grows down.
pub record IsPaged (os : Os) (g : Gstack) : Type 0 where
  pub page_size : 0 < os.page_size
  pub exn_fits : os.page_size ≤ os.gstack_exn_guaranteed
  pub down : os.stack_grows_down ≡ true
  pub first : ℕ
  pub last : ℕ
  pub start_aligned : g.stack ≡ first * os.page_size
  pub end_aligned : g.stack + g.stack_size ≡ last * os.page_size

module _ (os : Os) (g : Gstack) (v : IsPaged os g) (addr : ℕ) (low : g.stack ≤ addr)
    (high : addr < g.stack + g.stack_size) where
  -- The page of the address lies on the stack.
  pub page_on_stack :
      let page = align_down addr os.page_size in
      (g.stack ≤ page)
      × (page + os.page_size ≤ g.stack + g.stack_size)
      × (page ≤ addr)
      × (addr < page + os.page_size)
  page_on_stack =
      let r =
        page_between addr os.page_size v.first v.last v.page_size (omega (arith, v.start_aligned))
          (omega (arith, v.end_aligned)) in
      (
        omega (arith, r, v.start_aligned),
        omega (arith, r, v.end_aligned),
        align_down-le addr os.page_size v.page_size,
        lt-align_down addr os.page_size v.page_size,
      )

  pub page_checked :
      let page = align_down addr os.page_size in
      let r = gstack_check_access os (some g) page in
      (r.kind ≡ access)
      × (r.stack_size ≡ g.stack_size)
      × (r.available ≡ page - g.stack)
      × (r.commit_available ≡ g.committed - (g.stack + g.stack_size - page))
  unfolding gstack_check_access
  page_checked = let d = v.down in let p = page_on_stack in ground arith

-- The handler tells a memory fault from the other exceptions.
pub memory_fault :
    (os : Os) (guaranteed : ℕ) (current : Option Gstack) (tib : Tib) (code : ExnCode) (info : ℕ)
    (commits guards : Area → Bool)
    → code ≢ other_exn
    → win_page_fault os guaranteed current tib code info commits guards
      ≡ handle_fault os guaranteed current tib code info commits guards
unfolding win_page_fault
memory_fault os guaranteed current tib cpp_exn info commits guards h = refl
memory_fault os guaranteed current tib stack_overflow info commits guards h = refl
memory_fault os guaranteed current tib access_violation info commits guards h = refl
memory_fault os guaranteed current tib other_exn info commits guards h = absurd (h refl)

-- The state after the areas were asked for.
abbrev pub grown :
    Tib
    → Gstack
    → (code : ExnCode) → (area guard_pages : Area) → (commits guards : Area → Bool) → WinFault
grown tib g code area guard_pages commits guards =
    let ok = commits area && guards guard_pages in
    record {
      continues = ok && not (is_cpp code);
      committed = some area;
      guarded = if commits area then some guard_pages else none;
      tib =
          if ok
          then record tib { stack_limit = area.start; stack_real_limit = guard_pages.start }
          else tib;
      current =
          some (if ok then record g { committed = g.stack + g.stack_size - area.start } else g);
    }

-- The areas for a growth by `extra`.
abbrev pub new_area : Os → (page extra : ℕ) → Area
new_area os page extra = record { start = page - extra; size = extra + os.page_size }

abbrev pub new_guard : (page extra guard : ℕ) → Area
new_guard page extra guard = record { start = page - extra - guard; size = guard }

pub extend_stack-grown :
    (os : Os) (guard : ℕ) (tib : Tib) (code : ExnCode) (g : Gstack) (page extra : ℕ)
    (commits guards : Area → Bool)
    → os.stack_grows_down ≡ true
    → extend_stack os guard tib code g page extra commits guards
      ≡ grown tib g code (new_area os page extra) (new_guard page extra guard) commits guards
unfolding extend_stack push_start mp_unpush
extend_stack-grown os guard tib code g page extra commits guards d =
    rw d (elim (Bool-cases (commits (new_area os page extra))) [
      | inr e ↦ rw e refl
      | inl e ↦ elim (Bool-cases (guards (new_guard page extra guard))) [
        | inr f ↦ rw (e, f) refl
        | inl f ↦ rw (e, f) refl
      ]
    ])

leb_zero : (e : ℕ) → leb_ℤ (pos 0) (pos e) ≡ true
leb_zero e = ground arith

module _ (os : Os) (guaranteed : ℕ) (g : Gstack) (v : IsPaged os g) (tib : Tib) (code : ExnCode)
    (info addr : ℕ) (commits guards : Area → Bool) (at : fault_addr tib code info ≡ addr)
    (low : g.stack ≤ addr) (high : addr < g.stack + g.stack_size) where
  page : ℕ
  page = align_down addr os.page_size

  used : ℕ
  used = g.stack_size - (page - g.stack)

  of_page :
      handle_fault os guaranteed (some g) tib code info commits guards
      ≡ handle_page os guaranteed g tib code page commits guards
  unfolding handle_fault page
  of_page =
      ap
        (λ (a : ℕ). handle_page os guaranteed g tib code (align_down a os.page_size) commits guards)
        at

  -- Past its first test, the handler looks at the room below the page.
  handled :
      (is_cpp code && leb os.gstack_exn_guaranteed (g.committed - (g.stack + g.stack_size - page)))
        ≡ false
      → handle_fault os guaranteed (some g) tib code info commits guards ≡ (
          let extra = win_growth os code used (page - g.stack) (guard_size os guaranteed) in
          if leb_ℤ (pos 0) extra
          then extend_stack os
              (guard_size os guaranteed)
              tib
              code
              g
              page
              (pos_part extra)
              commits
              guards
          else search_on tib (some g))
  unfolding page used handle_page win_growth
  handled test =
      let c = page_checked os g v addr low high in
      of_page ∙ rw (handle_page, c.0, c.1, c.2, c.3, test) refl

  -- With room for the guard pages, the areas are asked for.
  pub handled_room :
      let guard = guard_size os guaranteed in
      let page = align_down addr os.page_size in
      (is_cpp code && leb os.gstack_exn_guaranteed (g.committed - (g.stack + g.stack_size - page)))
        ≡ false
      → g.stack + guard ≤ page
      → (extra : ℕ) × (handle_fault os guaranteed (some g) tib code info commits guards
          ≡ grown tib g code (new_area os page extra) (new_guard page extra guard) commits guards)
        × (win_growth os code (g.stack_size - (page - g.stack)) (page - g.stack) guard ≡ pos extra)
        × (g.stack + guard + extra ≤ page)
        × (extra ≤ 1 * mib)
  unfolding page used
  handled_room test room =
      let guard = guard_size os guaranteed in
      let (extra, e, fits, small) =
        win_growth-fits os code used (page - g.stack) guard v.page_size (omega arith) v.exn_fits in
      (
        extra,
        handled test
            ∙ rw (e, leb_zero extra)
                (extend_stack-grown os guard tib code g page extra commits guards v.down),
        e,
        omega arith,
        small,
      )

  -- Without, nothing is.
  pub handled_full :
      let page = align_down addr os.page_size in
      (is_cpp code && leb os.gstack_exn_guaranteed (g.committed - (g.stack + g.stack_size - page)))
        ≡ false
      → page < g.stack + guard_size os guaranteed
      → guard_size os guaranteed + os.page_size < 9223372036854775808
      → handle_fault os guaranteed (some g) tib code info commits guards ≡ search_on tib (some g)
  unfolding page used
  handled_full test full small =
      let stuck =
        win_growth-full os code used (page - g.stack) (guard_size os guaranteed) v.page_size
          (omega (arith, page_on_stack os g v addr low high)) small v.exn_fits in
      handled test ∙ rw stuck refl

module _ (os : Os) (guaranteed : ℕ) (g : Gstack) (tib : Tib) (code : ExnCode) (addr : ℕ)
    (commits guards : Area → Bool) where
  -- An access to the current stack, which starts and ends at page boundaries and grows down, with room
  -- for the guard pages below the page of the address: the area that is committed has the address,
  -- lies on the stack and is at most 1 MiB and a page long, and the guard pages lie directly below it, on
  -- the stack too. If both succeed, the program goes on, and the limits of the stack and its record of
  -- what is committed are those of the areas; if not, the search for a handler goes on, and they stay.
  pub page_fault_lem :
      IsPaged os g
      → code ≢ other_exn
      → is_cpp code ≡ false
      → g.stack ≤ addr
      → addr < g.stack + g.stack_size
      → g.stack + guard_size os guaranteed ≤ align_down addr os.page_size
      → (area : Area) × (guard_pages : Area) × (win_page_fault os guaranteed
            (some g)
            tib
            code
            addr
            commits
            guards
          ≡ grown tib g code area guard_pages commits guards)
        × (area.start ≤ addr)
        × (addr < area.start + area.size)
        × (area.start + area.size ≤ g.stack + g.stack_size)
        × (area.size ≤ 1 * mib + os.page_size)
        × (guard_pages.start + guard_pages.size ≡ area.start)
        × (guard_pages.size ≡ guard_size os guaranteed)
        × (g.stack ≤ guard_pages.start)
  unfolding fault_addr
  page_fault_lem v known fault low high room =
      let page = align_down addr os.page_size in
      let here : fault_addr tib code addr ≡ addr = rw fault refl in
      let r =
        handled_room os guaranteed g v tib code addr addr commits guards here low high
          (rw fault refl) room in
      let s = page_on_stack os g v addr low high in
      (
        new_area os page r.0,
        new_guard page r.0 (guard_size os guaranteed),
        memory_fault os guaranteed (some g) tib code addr commits guards known ∙ r.1,
        omega (arith, s, r.3),
        omega (arith, s, r.3),
        omega (arith, s, r.3),
        omega (arith, r.4),
        omega (arith, s, r.3),
        refl,
        omega (arith, s, r.3),
      )

  -- With no room for them, nothing is done and the search for a handler goes on, which makes the access
  -- a stack overflow of the program.
  pub page_fault_full :
      IsPaged os g
      → code ≢ other_exn
      → is_cpp code ≡ false
      → g.stack ≤ addr
      → addr < g.stack + g.stack_size
      → align_down addr os.page_size < g.stack + guard_size os guaranteed
      → guard_size os guaranteed + os.page_size < 9223372036854775808
      → win_page_fault os guaranteed (some g) tib code addr commits guards ≡ search_on tib (some g)
  unfolding fault_addr
  page_fault_full v known fault low high full small =
      let here : fault_addr tib code addr ≡ addr = rw fault refl in
      memory_fault os guaranteed (some g) tib code addr commits guards known
      ∙ handled_full os guaranteed g v tib code addr addr commits guards here low high
          (rw fault refl) full small
