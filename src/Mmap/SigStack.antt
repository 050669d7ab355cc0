-- ===== src/Mmap/SigStack.antt =====
-- The signal stack of a thread: what `mp_gpools_thread_init` of src/mprompt/gstack_mmap.c allocates.
use libmprompt.Base.{ℕ, ◌≡◌, ◌≢◌, Bool, arith}
use libmprompt.Os.{Os}
use libmprompt.Mmap.Signals.{SigStack, sig_thread_init, sig_thread_done}

-- A thread that has no signal stack calls `mp_gpools_thread_init` and later `mp_gpools_thread_done`, as the
-- process does at its start and its end in one thread: nothing that the first call allocated stays
-- allocated, and nothing else is freed, whether the allocations and the calls of the system succeed or
-- not. `mp_malloc` gives two different places. (Other threads do not make the second call.)
pub sig_thread_done-init :
    (os : Os) (queried : Bool) (struct_at stack_at : ℕ) (ok : Bool) (t : SigStack)
    → t.sig_stack ≡ 0
    → struct_at ≢ stack_at
    → (sig_thread_done (sig_thread_init os queried struct_at stack_at ok t)).live ≡ t.live
unfolding sig_thread_done sig_thread_init
sig_thread_done-init os queried struct_at stack_at ok t z ne = ground arith
