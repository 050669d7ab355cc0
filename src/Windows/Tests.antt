-- ===== src/Windows/Tests.antt =====
-- The theorems on Windows, applied to a stack of 64 pages.
use libmprompt.Base.{◌+◌, ◌*◌, ◌≤◌, ◌<◌, ◌≡◌, refl, Bool, true, false, some, none, arith}
use libmprompt.Base.Int.{pos, negsuc}
use libmprompt.Util.{mib, align_up, align_down}
use libmprompt.Os.{Os, os_start}
use libmprompt.Mmap.{Area}
use libmprompt.Gstack.{Gstack}
use libmprompt.Windows.{guard_size, win_os_alloc, win_os_init, mem_reserve, align_down_ssize}
use libmprompt.Windows.PageFault.{
  Tib, cpp_exn, access_violation, win_page_fault, get_stack_extent, enter_limits,
}
use libmprompt.Windows.Overflow.{IsPaged, grown, page_fault_lem}
use libmprompt.Windows.Exception.{cpp_exn_lem}
use libmprompt.Windows.Balance.{IsBalanced, obtained, win_os_alloc_lem}

abbrev os : Os
os = record os_start { page_size = 4096; gstack_initial_commit = 4096 }

abbrev stack : Gstack
stack = record {
  next = 0;
  full = 40960;
  full_size = 262144;
  stack = 40960;
  stack_size = 262144;
  initial_commit = 4096;
  committed = 8192;
  extra_size = 0;
  extra = 0;
}

abbrev limits : Tib
limits = record { stack_base = 303104; stack_limit = 294912; stack_real_limit = 290816 }

enter_limits_stack : enter_limits os 0 stack ≡ limits
unfolding enter_limits align_up
enter_limits_stack = refl

stack-IsPaged : IsPaged os stack
stack-IsPaged = record {
  page_size = omega arith;
  exn_fits = omega arith;
  down = refl;
  first = 10;
  last = 74;
  start_aligned = refl;
  end_aligned = refl;
}

abbrev always : Area → Bool
always a = true

page_fault_example :
    (area : Area) × (guard_pages : Area) × (win_page_fault os 0
        (some stack)
        limits
        access_violation
        200000
        always
        always
      ≡ grown limits stack access_violation area guard_pages always always)
    × (area.start ≤ 200000)
    × (200000 < area.start + area.size)
    × (area.start + area.size ≤ 303104)
    × (area.size ≤ 1 * mib + 4096)
    × (guard_pages.start + guard_pages.size ≡ area.start)
    × (guard_pages.size ≡ guard_size os 0)
    × (40960 ≤ guard_pages.start)
unfolding align_down guard_size align_up
page_fault_example =
    page_fault_lem os 0 stack limits access_violation 200000 always always stack-IsPaged (λ e. cc e)
      refl (omega arith) (omega arith) (omega arith)

cpp_exn_example :
    (area : Area) × (guard_pages : Area) × (win_page_fault os 0
        (some stack)
        limits
        cpp_exn
        0
        always
        always
      ≡ grown limits stack cpp_exn area guard_pages always always)
    × ((win_page_fault os 0 (some stack) limits cpp_exn 0 always always).continues ≡ false)
    × (area.size ≡ 32768)
    × (area.start + area.size ≡ 294912)
    × (guard_pages.start + guard_pages.size ≡ area.start)
    × (guard_pages.size ≡ guard_size os 0)
    × (40960 ≤ guard_pages.start)
unfolding guard_size align_up
cpp_exn_example =
    cpp_exn_lem os 0 stack limits 0 8 71 always always stack-IsPaged (omega arith) refl
      (omega arith) refl refl (omega arith)

-- The guard pages cannot be made: the memory is released again.
win_os_alloc_example :
    IsBalanced
      (record os { use_gpools = false })
      (obtained (record os { use_gpools = false }) 65536 none)
      (win_os_alloc (record os { use_gpools = false }) 0 65536 none always (λ a. false))
win_os_alloc_example =
    win_os_alloc_lem (record os { use_gpools = false }) 0 65536 always (λ a. false) none
      (λ size e. cc e)

-- The first reservation is asked for below the stack, by 64 MiB and its size.
mem_reserve_first :
    mem_reserve
      (λ place size. elim place [ none ↦ 7 | some a ↦ a ])
      0x7fff00001234
      (λ z. z)
      (λ z. z)
      100000
      (pos 0)
    ≡ (0x7ffefbfe0000, pos 0x7ffefbfe0000)
unfolding mem_reserve
mem_reserve_first = refl

align_down_ssize_example : align_down_ssize (negsuc 99) 4096 ≡ negsuc 4095
unfolding align_down_ssize
align_down_ssize_example = refl

-- Without the handler there are no pools.
win_os_init_example :
    win_os_init 4096 false os_start
    ≡ some (record os_start { page_size = 4096; use_gpools = false; gstack_grow_fast = false })
unfolding win_os_init
win_os_init_example = refl

get_stack_extent_example : get_stack_extent 300000 limits ≡ record {
  sp = 300000;
  commit_available = pos 5088;
  available = pos 9184;
  stack_size = pos 12288;
  base = 303104;
}
unfolding get_stack_extent
get_stack_extent_example = refl
