-- ===== src/Windows/Exception.antt =====
-- What the page fault handler on Windows does on a C++ exception.
use libmprompt.Base.{
  ℕ, suc, ◌+◌, ◌-◌, ◌*◌, ◌≤◌, ◌≡◌, ◌≢◌, refl, sym, ap, ◌∙◌, Bool, true, false, ◌&&◌, some, arith,
}
use libmprompt.Base.Int.{pos_part}
use libmprompt.Util.{align_down, mib}
use libmprompt.Util.Align.{page_between}
use libmprompt.Os.{Os}
use libmprompt.Mmap.{Area}
use libmprompt.Gstack.{Gstack}
use libmprompt.Windows.{guard_size}
use libmprompt.Windows.PageFault.{Tib, cpp_exn, other_exn, WinFault, fault_addr, win_page_fault}
use libmprompt.Windows.Growth.{win_growth-cpp}
use libmprompt.Windows.Overflow.{IsPaged, memory_fault, grown, new_area, new_guard, handled_room}

-- The page below a page boundary.
page_below : (limit d k : ℕ) → 8 ≤ d → limit ≡ suc k * d → align_down (limit - 8) d ≡ limit - d
page_below limit d k h e =
    let r = page_between (limit - 8) d k (suc k) (omega arith) (omega arith) (omega arith) in
    omega (arith, r)

and_false : (b : Bool) → (b && false) ≡ false
and_false true = refl
and_false false = refl

cpp-other : cpp_exn ≢ other_exn
cpp-other e = cc e

-- A C++ exception, on a stack that starts and ends at page boundaries and grows down, with its limits
-- where its record of what is committed ends: the handler commits the guaranteed size, of at most 1 MiB,
-- below that limit, and guard pages directly below, if there is room for both. It does so however much of
-- the committed part is free, and it never continues the program at the exception.
pub cpp_exn_lem :
    (os : Os) (guaranteed : ℕ) (g : Gstack) (tib : Tib) (info e k : ℕ)
    (commits guards : Area → Bool)
    → IsPaged os g
    → 8 ≤ os.page_size
    → os.gstack_exn_guaranteed ≡ e * os.page_size
    → os.gstack_exn_guaranteed ≤ 1 * mib
    → tib.stack_limit ≡ suc k * os.page_size
    → tib.stack_limit + g.committed ≡ g.stack + g.stack_size
    → g.stack + guard_size os guaranteed + os.gstack_exn_guaranteed ≤ tib.stack_limit
    → (area : Area) × (guard_pages : Area) × (win_page_fault os guaranteed
          (some g)
          tib
          cpp_exn
          info
          commits
          guards
        ≡ grown tib g cpp_exn area guard_pages commits guards)
      × ((win_page_fault os guaranteed (some g) tib cpp_exn info commits guards).continues ≡ false)
      × (area.size ≡ os.gstack_exn_guaranteed)
      × (area.start + area.size ≡ tib.stack_limit)
      × (guard_pages.start + guard_pages.size ≡ area.start)
      × (guard_pages.size ≡ guard_size os guaranteed)
      × (g.stack ≤ guard_pages.start)
unfolding fault_addr
cpp_exn_lem os guaranteed g tib info e k commits guards v big aligned small limit top room =
    let d = os.page_size in
    let n = os.gstack_exn_guaranteed in
    let guard = guard_size os guaranteed in
    let p = page_below tib.stack_limit d k big limit in
    let r =
      handled_room os guaranteed g v tib cpp_exn info (tib.stack_limit - 8) commits guards refl
        (omega (arith, v.exn_fits)) (omega (arith, v.page_size)) (ground (arith, p, v.exn_fits))
        (omega (arith, p, v.exn_fits)) in
    let page = align_down (tib.stack_limit - 8) d in
    let w =
      win_growth-cpp os e (g.stack_size - (page - g.stack)) (page - g.stack) guard v.page_size
        v.exn_fits aligned small (omega (arith, p, v.exn_fits)) in
    let x : r.0 ≡ n - d = ap pos_part (sym r.2 ∙ w) in
    let result =
      memory_fault os guaranteed (some g) tib cpp_exn info commits guards cpp-other ∙ r.1 in
    (
      new_area os page r.0,
      new_guard page r.0 guard,
      result,
      ap WinFault.continues result
          ∙ and_false (commits (new_area os page r.0) && guards (new_guard page r.0 guard)),
      omega (arith, x, v.exn_fits),
      omega (arith, x, p, r.3),
      omega (arith, r.3),
      refl,
      omega (arith, r.3),
    )
