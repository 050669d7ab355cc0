-- ===== src/Mmap/Signals.antt =====
-- The signal handler of src/mprompt/gstack_mmap.c, how it is installed, and the signal stacks.
use libmprompt.Base.{ℕ, Bool, true, false, not, ◌&&◌, Option, List, [], ◌∷◌, ◌==◌, if◌then◌else◌}
use libmprompt.Os.{Os}
use libmprompt.Gpool.{Gpool}
use libmprompt.Gstack.{Gstack}
use libmprompt.Mmap.{commit_on_demand}

-- A `struct sigaction`: `handler` is `sa_handler` and `sa_sigaction`, which share their place, and is 0
-- for the default action; `siginfo` is the flag `SA_SIGINFO`.
pub record Sigaction : Type 0 where
  pub siginfo : Bool
  pub handler : ℕ

-- What the handler does with a fault.
pub data Forward : Type 0 where
  committed : Forward
  to_sigaction to_handler : (f : ℕ) → Forward
  nowhere : Forward

-- The call of the previous handler.
unfoldable pub forward : Sigaction → Forward
forward parent =
    if parent.siginfo && not (parent.handler == 0)
    then to_sigaction parent.handler
    else if not (parent.handler == 0)
    then to_handler parent.handler
    else nowhere

-- `mp_sig_handler_commit_on_demand`, with the current stack afterwards and the address of the message for
-- a stack overflow. `is_bus` is the test for SIGBUS.
unfoldable pub sig_handler :
    Os
    → (segv_prev bus_prev : Sigaction) → List Gpool
    → (is_bus : Bool) → (addr : ℕ) → (protects : Bool) → (current : Option Gstack)
    → Forward × Option Gstack × Option ℕ
unfolding forward
sig_handler os segv_prev bus_prev pools is_bus addr protects current =
    let r = commit_on_demand os current pools addr false protects in
    if r.handled
    then (committed, r.current, r.overflow)
    else (forward (if is_bus then bus_prev else segv_prev), r.current, r.overflow)

-- The handlers of the process: the actions that are installed for SIGSEGV and SIGBUS, and the static
-- variables with the previous ones.
pub record Handlers : Type 0 where
  pub segv : Sigaction
  pub bus : Sigaction
  pub segv_prev : Sigaction
  pub bus_prev : Sigaction

abbrev pub no_action : Sigaction
no_action = record { siginfo = false; handler = 0 }

-- The signal part of `mp_gpools_process_init`; `own` is the address of the handler, `linux` whether the
-- code is compiled for Linux, and `segv_ok` and `bus_ok` whether `sigaction` succeeds.
unfoldable pub process_init :
    Os → (linux : Bool) → (own : ℕ) → (segv_ok bus_ok : Bool) → Handlers → Handlers
process_init os linux own segv_ok bus_ok h =
    let act : Sigaction = record { siginfo = true; handler = own } in
    let h' = if segv_ok then record h { segv = act; segv_prev = h.segv } else h in
    if not os.use_gpools && os.use_overcommit
    then h
    else if not (h.segv_prev.handler == 0)
    then h
    else if not linux && (segv_ok && bus_ok)
    then record h' { bus = act; bus_prev = h'.bus }
    else h'

-- The signal part of `mp_gpools_process_done`.
unfoldable pub process_done : Handlers → Handlers
process_done h =
    let h' =
      if not (h.segv_prev.handler == 0)
      then record h { segv = h.segv_prev; segv_prev = no_action }
      else h in
    if not (h'.bus_prev.handler == 0)
    then record h' { bus = h'.bus_prev; bus_prev = no_action }
    else h'

-- The signal stack of a thread: `mp_sig_stack` and its `ss_sp`, 0 for NULL; the signal stack that the
-- system has, 0 if it has none; and what is allocated, the latest first.
pub record SigStack : Type 0 where
  pub sig_stack : ℕ
  pub ss_sp : ℕ
  pub installed : ℕ
  pub live : List ℕ

abbrev pub allocate : ℕ → List ℕ → List ℕ
allocate p live = if p == 0 then live else p ∷ live

abbrev pub deallocate : ℕ → List ℕ → List ℕ
deallocate p [] = []
deallocate p (q ∷ live) = if p == q then live else q ∷ deallocate p live

-- The part of `mp_gpools_thread_init` that sets up a signal stack; `struct_at` and `stack_at` are what
-- `mp_malloc` returns, and `ok` whether `sigaltstack` succeeds.
unfoldable pub make_sig_stack : (struct_at stack_at : ℕ) → (ok : Bool) → SigStack → SigStack
make_sig_stack struct_at stack_at ok t =
    let live = allocate stack_at (allocate struct_at t.live) in
    if struct_at == 0
    then t
    else if stack_at == 0
    then record t { live = deallocate struct_at live }
    else if ok
    then record { sig_stack = struct_at; ss_sp = stack_at; installed = stack_at; live = live }
    else record t { live = deallocate struct_at (deallocate stack_at live) }

-- `mp_gpools_thread_init`; `queried` is whether the system tells of its signal stack.
unfoldable pub sig_thread_init :
    Os → (queried : Bool) → (struct_at stack_at : ℕ) → (ok : Bool) → SigStack → SigStack
unfolding make_sig_stack
sig_thread_init os queried struct_at stack_at ok t =
    if not os.use_gpools && os.use_overcommit
    then t
    else if (t.sig_stack == 0) && (queried && (t.installed == 0))
    then make_sig_stack struct_at stack_at ok t
    else t

-- `mp_gpools_thread_done`.
unfoldable pub sig_thread_done : SigStack → SigStack
sig_thread_done t =
    if not (t.sig_stack == 0)
    then record {
      sig_stack = 0;
      ss_sp = 0;
      installed = 0;
      live = deallocate t.sig_stack (deallocate t.ss_sp t.live);
    }
    else t
