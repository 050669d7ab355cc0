-- ===== src/Util/Message.antt =====
-- The messages of src/mprompt/util.c, and the allocation functions of include/internal/util.h that end
-- the process.
use libmprompt.Base.{ℕ, Bool, ◌||◌, Option, none, some, List, [], ◌∷◌, ◌==◌, if◌then◌else◌}
use Prim.Native.String.{String}

-- How a call ends: it returns, the process ends, or an error handler leaves it by an exception.
pub data Ending : Type 0 where
  returns aborts leaves : Ending

-- The end of `mp_error_message` and of `mp_system_error_message`, after the text is shown; `handler` is
-- `mp_error_handler`, and `efault` is `EFAULT`.
unfoldable pub error_message : (handler : Option (ℕ → Ending)) → (err efault : ℕ) → Ending
error_message none err efault = if err == efault then aborts else returns
error_message (some handler) err efault = handler err

-- The end of `mp_fatal_message`.
unfoldable pub fatal_message : (handler : Option (ℕ → Ending)) → (err : ℕ) → Ending
fatal_message none err = aborts
fatal_message (some handler) err = elim (handler err) [ leaves ↦ leaves | _ ↦ aborts ]

-- `mp_unreachable`, with the assertion of a debug build; `einval` is `EINVAL`.
unfoldable pub unreachable :
    (debug : Bool) → (handler : Option (ℕ → Ending)) → (einval : ℕ) → Ending
unfolding fatal_message
unreachable debug handler einval = if debug then aborts else fatal_message handler einval

-- `mp_malloc_safe` and `mp_zalloc_safe`: the memory, or how the call ends; `p` is what `mp_malloc` or
-- `mp_zalloc` returns, and `enomem` is `ENOMEM`.
pub data Allocated : Type 0 where
  memory : (p : ℕ) → Allocated
  ended : Ending → Allocated

unfoldable pub malloc_safe : (handler : Option (ℕ → Ending)) → (enomem p : ℕ) → Allocated
unfolding fatal_message
malloc_safe handler enomem p = if p == 0 then ended (fatal_message handler enomem) else memory p

-- What `mp_fputs` writes: texts to a file descriptor, or to the output function.
pub data Output : Type 0 where
  to_fd : (fd : ℕ) → String → Output
  to_fun : (out : ℕ) → String → Output

abbrev pub prefixed : (String → Output) → Option String → String → List Output
prefixed put none message = put message ∷ []
prefixed put (some text) message = put text ∷ put message ∷ []

-- `mp_fputs`; `stdout` and `stderr` are the addresses of the streams.
unfoldable pub mp_fputs :
    (stdout stderr out : ℕ) → (text : Option String) → (message : String) → List Output
mp_fputs stdout stderr out text message =
    if (out == 0) || ((out == 2) || (out == stderr))
    then prefixed (to_fd 2) text message
    else if (out == 1) || (out == stdout)
    then prefixed (to_fd 1) text message
    else prefixed (to_fun out) text message
