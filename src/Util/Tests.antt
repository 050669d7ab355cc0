-- ===== src/Util/Tests.antt =====
-- The theorems on alignment at concrete sizes, and runs of the random bytes and the messages.
use libmprompt.Base.{◌≡◌, refl, true, false, some, none, [], ◌∷◌}
use libmprompt.Base.Int.{pos, negsuc}
use libmprompt.Util.Random.{eintr, other_error, os_random_buf, os_random_weak}
use libmprompt.Util.Message.{returns, aborts, error_message, ended, malloc_safe, to_fd, mp_fputs}

-- Three bytes, an interruption, and the last five.
os_random_buf_example :
    os_random_buf none 38 true
      (record { ret = pos 3; errno = other_error }
        ∷ record { ret = negsuc 0; errno = eintr }
        ∷ record { ret = pos 5; errno = other_error }
        ∷ [])
      8
      0
    ≡ (some true, 0)
unfolding os_random_buf
os_random_buf_example = refl

-- An error of another kind ends the loop.
os_random_buf_error :
    os_random_buf none 38 true
      (record { ret = pos 3; errno = other_error }
        ∷ record { ret = negsuc 0; errno = other_error }
        ∷ [])
      8
      0
    ≡ (some false, 0)
unfolding os_random_buf
os_random_buf_error = refl

-- A clock that gives the value of `x` is asked again.
os_random_weak_example : os_random_weak 0x853C49E6748FEA9B ((0, 0) ∷ (1, 5) ∷ []) ≡ some 131077
unfolding os_random_weak
os_random_weak_example = refl

mp_fputs_example :
    mp_fputs 1000 2000 1000 (some "libmprompt: error: ") "out of memory\n"
    ≡ to_fd 1 "libmprompt: error: " ∷ to_fd 1 "out of memory\n" ∷ []
unfolding mp_fputs
mp_fputs_example = refl

-- Without an error handler only EFAULT ends the process; a fatal message always does.
error_message_example : error_message none 12 14 ≡ returns
unfolding error_message
error_message_example = refl

malloc_safe_example : malloc_safe (some (λ err. returns)) 12 0 ≡ ended aborts
unfolding malloc_safe
malloc_safe_example = refl
