-- ===== src/Mmap/Mach.antt =====
-- src/mprompt/gstack_mmap_mach.c: under a debugger on macOS a thread of its own handles the faults on
-- stacks, which the kernel sends it as messages. `Kern` has the constants of the kernel's headers.
pub mod Messages
pub mod Start
mod Tests
use libmprompt.Base.{
  ℕ, ◌+◌, ◌*◌, Bool, true, false, not, ◌&&◌, Option, none, some, List, [], ◌∷◌, ◌==◌, ltb, leb,
  if◌then◌else◌,
}
use Prim.Native.Nat.{bit_and}
use libmprompt.Os.{Os}
use libmprompt.Gpool.{Gpool}
use libmprompt.Mmap.{commit_on_demand}

-- `reply_offset` is the offset of the thread's state in a reply, `natural_size` the size of an element
-- of that state, and `remote_bits` is MACH_MSGH_BITS of the remote part of its argument.
pub record Kern : Type 0 where
  pub success : ℕ
  pub failure : ℕ
  pub protection_failure : ℕ
  pub p_traced : ℕ
  pub reply_offset : ℕ
  pub natural_size : ℕ
  pub remote_bits : ℕ → ℕ

-- The fields of `mp_mach_exc_request_t` that the code reads; the array `code` has two elements.
pub record Request : Type 0 where
  pub bits : ℕ
  pub remote_port : ℕ
  pub id : ℕ
  pub ndr : ℕ
  pub code : ℕ
  pub address : ℕ
  pub flavor : ℕ
  pub old_state_count : ℕ
  pub old_state : ℕ → ℕ

-- `mp_mach_exc_reply_t`, as it is sent; `size` is `msgh_size`.
pub record Reply : Type 0 where
  pub bits : ℕ
  pub remote_port : ℕ
  pub local_port : ℕ
  pub id : ℕ
  pub size : ℕ
  pub ndr : ℕ
  pub ret : ℕ
  pub flavor : ℕ
  pub new_state_count : ℕ
  pub new_state : ℕ → ℕ

-- The length of the arrays `old_state` and `new_state`.
abbrev pub state_count : ℕ
state_count = 614

-- `mp_mach_reply`; `garbage` is what the local variable `reply` has for a state.
unfoldable pub mach_reply : Kern → (garbage : ℕ → ℕ) → Request → (ret : ℕ) → Reply
mach_reply k garbage req ret =
    let count = if leb req.old_state_count state_count then req.old_state_count else state_count in
    record {
      bits = k.remote_bits req.bits;
      remote_port = req.remote_port;
      local_port = 0;
      id = req.id + 100;
      size = k.reply_offset + count * k.natural_size;
      ndr = req.ndr;
      ret = ret;
      flavor = req.flavor;
      new_state_count = count;
      new_state = λ i. if ltb i count then req.old_state i else garbage i;
    }

-- What `mach_msg` gives to the thread: a request, with the pools as they are then and whether
-- `mprotect` succeeds, or an error.
pub data Event : Type 0 where
  received : Request → List Gpool → (protects : Bool) → Event
  failed : Event

-- The result that a request is answered with.
unfoldable pub answer : Kern → Os → Request → List Gpool → (protects : Bool) → ℕ
unfolding commit_on_demand
answer k os req pools protects =
    if (req.code == k.protection_failure)
      && (commit_on_demand os none pools req.address true protects).handled
    then k.success
    else k.failure

-- `mp_mach_exc_thread_start`, for the events in turn: the replies, and whether the thread has ended.
unfoldable pub exc_thread :
    Kern → Os → (garbage : ℕ → ℕ) → (tries : ℕ) → List Event → List Reply × Bool
unfolding mach_reply answer
exc_thread k os garbage tries [] = ([], false)
exc_thread k os garbage tries (received req pools protects ∷ es) =
    let rest = exc_thread k os garbage 0 es in
    (mach_reply k garbage req (answer k os req pools protects) ∷ rest.0, rest.1)
exc_thread k os garbage tries (failed ∷ es) =
    let rest = exc_thread k os garbage (tries + 1) es in
    if ltb 3 (tries + 1) then ([], true) else rest

-- The exception port of the process, whether its thread runs, and the ports that are allocated.
pub record Mach : Type 0 where
  pub exc_port : ℕ
  pub thread : Bool
  pub ports : List ℕ

-- `mp_os_mach_in_debugger`: `flags` is `p_flag` of the process, if `sysctl` succeeds.
unfoldable pub in_debugger : Kern → (flags : Option ℕ) → Bool
in_debugger k none = false
in_debugger k (some flags) = not (bit_and flags k.p_traced == 0)

abbrev pub without : ℕ → List ℕ → List ℕ
without p [] = []
without p (q ∷ qs) = if p == q then qs else q ∷ without p qs

-- The part of `mp_os_mach_process_init` at `err`.
abbrev pub give_up : Mach → Mach
give_up m =
    if not (m.exc_port == 0)
    then record m { exc_port = 0; ports = without m.exc_port m.ports }
    else m

-- `mp_os_mach_process_init`: `port` is the port that is allocated, if that succeeds, `right` and
-- `created` whether the right is inserted and the thread is created. An error only shows a message.
unfoldable pub mach_process_init :
    Kern → (flags port : Option ℕ) → (right created : Bool) → Os → Mach → Os × Mach
unfolding in_debugger
mach_process_init k flags none right created os m =
    if not (in_debugger k flags) then (os, m) else (record os { use_gpools = true }, m)
mach_process_init k flags (some p) right created os m =
    let m' = record m { exc_port = p; ports = p ∷ m.ports } in
    if not (in_debugger k flags) then (os, m) else (
      record os { use_gpools = true },
      if not right
          then give_up m'
          else if not created
          then give_up m'
          else record m' { thread = true },
    )

-- `mp_os_mach_thread_init`: the port that a thread's faults are sent to, if it is set; `current` is the
-- one before, and `ok` whether the call succeeds.
unfoldable pub mach_thread_init : (ok : Bool) → Mach → (current : Option ℕ) → Option ℕ
mach_thread_init ok m current = if not (m.exc_port == 0) && ok then some m.exc_port else current
