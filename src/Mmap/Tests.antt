-- ===== src/Mmap/Tests.antt =====
-- The theorems on the memory of stacks, applied to a stack of 64 pages.
use libmprompt.Base.{◌+◌, ◌-◌, ◌*◌, ◌≤◌, ◌<◌, ◌≡◌, refl, true, false, some, none, [], ◌∷◌, arith}
use libmprompt.Util.{mib}
use libmprompt.Os.{Os, os_start}
use libmprompt.Gstack.{Gstack}
use libmprompt.Mmap.{Area, commit_on_demand}
use libmprompt.Mmap.Growth.{commit_on_demand_lem}
use libmprompt.Mmap.System.{advice_free, dontneed, mem_reset}
use libmprompt.Mmap.Signals.{
  SigStack, sig_thread_init, sig_thread_done, Handlers, no_action, process_init, process_done,
}
use libmprompt.Mmap.SigHandler.{handler_at, process_done-init}
use libmprompt.Mmap.SigStack.{sig_thread_done-init}

abbrev os : Os
os = record os_start { page_size = 4096; gstack_initial_commit = 4096 }

abbrev stack : Gstack
stack = record {
  next = 0;
  full = 40960;
  full_size = 262144;
  stack = 40960;
  stack_size = 262144;
  initial_commit = 4096;
  committed = 4096;
  extra_size = 0;
  extra = 0;
}

commit_on_demand_example :
    (area : Area) × (commit_on_demand os (some stack) [] 200000 false true ≡ record {
      handled = true;
      area = some area;
      current = some (record stack { committed = 303104 - area.start });
      overflow = none;
    })
    × (40960 ≤ area.start)
    × (area.start + area.size ≤ 303104)
    × (area.start ≤ 200000)
    × (200000 < area.start + area.size)
    × (area.size ≤ 1 * mib + 4096)
commit_on_demand_example =
    commit_on_demand_lem os stack [] 200000 10 64 false true (omega arith) refl refl refl
      (omega arith) (omega arith)

-- SIGSEGV had the default action, and SIGBUS a handler of the program.
abbrev handlers : Handlers
handlers = record {
  segv = no_action;
  bus = record { siginfo = false; handler = 70 };
  segv_prev = no_action;
  bus_prev = no_action;
}

process_done-init_example :
    let done = process_done (process_init os false 99 true true handlers) in
    (done.segv ≡ handler_at 99) × (done.bus ≡ record { siginfo = false; handler = 70 })
process_done-init_example = process_done-init os false 99 true true handlers refl refl

abbrev no_sig_stack : SigStack
no_sig_stack = record { sig_stack = 0; ss_sp = 0; installed = 0; live = 500 ∷ [] }

-- The system refuses the signal stack.
sig_thread_done-init_example :
    (sig_thread_done (sig_thread_init os true 1000 2000 false no_sig_stack)).live ≡ 500 ∷ []
sig_thread_done-init_example =
    sig_thread_done-init os true 1000 2000 false no_sig_stack refl (omega arith)

-- The advice that the system does not know is not tried again.
mem_reset_example :
    mem_reset os true true (λ a. elim a [ dontneed ↦ 0 | _ ↦ 22 ]) 22 advice_free ≡ (true, dontneed)
unfolding mem_reset
mem_reset_example = refl
