-- ===== src/Mmap/SigHandler.antt =====
-- The signal handlers of the process: what `mp_gpools_process_init` and `mp_gpools_process_done` of
-- src/mprompt/gstack_mmap.c leave of the program's own.
use libmprompt.Base.{ℕ, ◌≡◌, Bool, true, not, ◌&&◌, ◌||◌, arith, ◌==◌, if◌then◌else◌}
use libmprompt.Os.{Os}
use libmprompt.Mmap.Signals.{Sigaction, Handlers, process_init, process_done}

abbrev pub handler_at : ℕ → Sigaction
handler_at own = record { siginfo = true; handler = own }

-- The pools end after they began, when no previous action was saved before: the action for each signal is
-- the one that the program had, but where that was the default action and the handler was installed, on
-- SIGSEGV or also on SIGBUS: there the handler stays. `segv_ok` and `bus_ok` say whether the system
-- accepts the handlers; it is taken to accept the old actions.
pub process_done-init :
    (os : Os) (linux : Bool) (own : ℕ) (segv_ok bus_ok : Bool) (h : Handlers)
    → h.segv_prev.handler ≡ 0
    → h.bus_prev.handler ≡ 0
    → let done = process_done (process_init os linux own segv_ok bus_ok h) in
      let on_segv = (os.use_gpools || not os.use_overcommit) && segv_ok in
      let on_bus = on_segv && (not linux && bus_ok) in
      (done.segv ≡ (if on_segv && (h.segv.handler == 0) then handler_at own else h.segv))
      × (done.bus ≡ (if on_bus && (h.bus.handler == 0) then handler_at own else h.bus))
unfolding process_init process_done
process_done-init os linux own segv_ok bus_ok h s b = (ground arith, ground arith)
