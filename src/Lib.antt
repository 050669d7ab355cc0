-- ===== src/Lib.antt =====
-- libmprompt: delimited control by prompts on growable stacks, in C.
--
-- The program (paths from the repository's root): src/mprompt/mprompt.c keeps the chain of prompts
-- and switches between their stacks; src/mprompt/gstack.c hands out stacks, from pools of reserved
-- memory (src/mprompt/gstack_gpool.c) or from the system; src/mpeff/mpeff.c builds effect handlers on
-- the prompts.
--
-- Base and its children: shared names, Boolean tests, lists, integers, bits, pointer chains.
-- Util: include/internal/util.h, the helpers on sizes and the guard cookie (mp_align_up, mp_guard).
--   Util/Random and Util/Message have src/mprompt/util.c: the random bytes and mp_guard_init, and how a
--   message is written and ends; Util/Seed has proofs on the random bytes.
-- Prompt: mprompt.c. Prompt/State has its types and the memory they live in: the prompts, return
--   points and resume points by address, and the thread's globals. Prompt/Ops has the functions on the
--   chain (mp_prompt_create, mp_prompt_free, mp_prompt_link, mp_prompt_unlink, mp_checked_longjmp),
--   Prompt/Switch the transfers of control (mp_prompt_resume, mp_yield, mp_prompt_stack_entry,
--   mp_prompt_exec_yield_fun). A function that calls mp_setjmp is two functions: up to its jump, and
--   from its landing on. Prompt/Chain says what an active and a captured chain is;
--   Prompt/Tag has the two kinds of resumptions in one pointer, Prompt/Multi the multi-shot ones
--   (mp_mresume_*, mp_prompt_save, mp_prompt_restore), and Prompt/Dispatch the operations on both
--   kinds. Prompt/Link, Free, Drop, Yield, Resume, Return, Roundtrip, Unshared, Oneshot, Saved, Restore
--   and Start are the proofs. Prompt/Machine is an abstract machine of chains without pointers, counts
--   and guards: a specification of the once resumptions, and the runs of the code that it describes;
--   Machine/Represents relates the two states, and Begin, Yielding, Resuming, Ending, Dropping,
--   Simulation, Misuse, Stacks and Balance are the proofs, one for each kind of step and those of whole runs. Prompt/Backtrace is mp_backtrace on Windows and macOS.
-- Os: the configuration of gstack.c and its arithmetic on stack addresses.
-- Gpool: gstack_gpool.c, a record per pool and one function per operation; Gpool/Stack, Blocks,
--   Roundtrip, Create and Fault are the proofs.
-- Gstack: gstack.c. Saved stacks (mp_gstack_save, mp_gsave_restore), the check of an access, in
--   Gstack/Config the configuration at start, and in Gstack/Cache the lists of cached and of delayed
--   stacks (mp_gstack_alloc, mp_gstack_free, mp_gstack_clear_delayed, mp_gstack_clear_cache), with the
--   proofs in Delayed, Settle, Search, Alloc and Clear; memory is a function from addresses to bytes.
-- Mmap: gstack_mmap.c, what a new stack has committed (mp_gstack_os_alloc) and what a page fault commits
--   (mp_mmap_commit_on_demand), with the proofs in Commit and Growth. It uses Gstack and Gpool.
--   Mmap/System has the calls of the system and mp_gstack_os_init, Mmap/Signals the signal handler, its
--   installation and the signal stacks, with the proofs in SigHandler and SigStack. Mmap/Mach is gstack_mmap_mach.c, the thread
--   that handles faults on macOS under a debugger, with the proofs in Mach/Messages and Mach/Start.
-- Windows: gstack_win.c, reserving and committing stacks and giving them back; Windows/PageFault has the
--   page fault handler and the limits of a stack that mp_gstack_enter sets. Balance, Growth, Overflow and
--   Exception are the proofs.
-- Lock: include/internal/atomic.h, the compare-exchange and the spin lock, for any number of threads in the
--   critical sections of gstack_gpool.c on one pool, a shared access at a time. Lock/Atomic says what the
--   sections promise; Invariant, Exclusion and Safety are the proofs, which justify that Gpool takes a
--   critical section as one step.
-- Effect: mpeff.c, as C and as C++. Effect/State has the frames of the shadow stack and the handler definitions,
--   Effect/Find the search for a handler (mpe_find), Effect/Perform the operations (mpe_perform), masks,
--   finally and handler frames, Effect/Resume what a resumption calls, Effect/Ownership its life; Effect/Values has the
--   conversions of generic values and Effect/Tags the names of operations; Effect/Abort follows an
--   abort through the yield and the drop of its prompt, in the state of both parts; Effect/Cpp has
--   what the C++ build does otherwise, frames left by destructors and exceptions that unwind to a handler, with
--   the proofs in its children; the other children are the proofs on the C build.
--   An operation that yields is split at mp_yield. The program's own functions are a parameter, Calls.
--
-- Machine numbers: addresses and sizes are natural numbers below 2^64 where nothing wraps; the 16-bit
-- entries of a pool's free stack keep their conversion (to_int16), and reference counts are integers.
-- Fuel: the walks over the prompt chain (mp_prompt_is_ancestor, mp_prompt_free) take the number of
-- prompts that they may visit; the theorems ask for more than the length of the chain, and no result
-- depends on how much more. mpe_find takes the number of frames, and the loops over the lists of
-- stacks the number of stacks. Running out is a fault, as is a failed assertion of a debug build.
-- Memory: a prompt structure is the extra area of its stack's structure, so freeing the stack ends it,
-- which the model records as `live`. The calls of mp_gstack_free are recorded in order.
-- Parameters: what the system calls behind mp_os_mem_reserve, mp_os_mem_commit, mprotect and malloc
-- return, the contents of fresh memory, where functions and local variables stand, and what
-- mp_gstack_os_init, which differs between the systems, leaves of the configuration. The program's
-- handler of error messages is taken to return.
--
-- Threads: only the lock has more than one; its steps are sequentially consistent. The pool's stack
-- pointer is a natural number, and a thread that would make it negative crashes.
--
-- Not modelled: the assembly of the context switch; the formatting of messages and the random bytes of
-- systems other than Linux; the bytes of the stacks that mp_prompt_save copies; the hooks for the end of a thread and for the address sanitizer; and
-- the exception objects that cross a prompt, which only keep their kind.
pub mod Base
pub mod Util
pub mod Prompt
pub mod Os
pub mod Gpool
pub mod Gstack
pub mod Mmap
pub mod Windows
pub mod Lock
pub mod Effect
