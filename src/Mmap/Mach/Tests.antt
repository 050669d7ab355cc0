-- ===== src/Mmap/Mach/Tests.antt =====
-- The theorems on the exception thread, applied to a pool of four blocks at 4096.
use libmprompt.Base.{ℕ, ◌*◌, ◌≡◌, true, false, [], ◌∷◌, arith, map}
use libmprompt.Base.Int.{pos}
use libmprompt.Os.{Os, os_start}
use libmprompt.Gpool.{Gpool}
use libmprompt.Mmap.Mach.{Kern, Request, failed, exc_thread}
use libmprompt.Mmap.Mach.Messages.{Message, failing, events, reply_to, exc_thread_lem}

abbrev os : Os
os = record os_start { page_size = 4096 }

abbrev pool : Gpool
pool = record {
  addr = 4096;
  full_size = 300000;
  size = 278528;
  block_count = 4;
  block_size = 69632;
  gap_size = 4096;
  zeroed = true;
  free_sp = 2;
  free = λ i. pos 0;
}

abbrev kern : Kern
kern = record {
  success = 0;
  failure = 5;
  protection_failure = 2;
  p_traced = 2048;
  reply_offset = 44;
  natural_size = 4;
  remote_bits = λ b. b;
}

-- A fault on the stack of the block 3.
abbrev fault_at : Request
fault_at = record {
  bits = 18;
  remote_port = 77;
  id = 2407;
  ndr = 0;
  code = 2;
  address = 82000;
  flavor = 6;
  old_state_count = 42;
  old_state = λ i. i * 3;
}

abbrev message : ℕ → Message
message n = record { failures = n; req = fault_at; pools = pool ∷ []; protects = true }

exc_thread_example :
    let ms = message 3 ∷ message 0 ∷ [] in
    let replies = map (reply_to kern os (λ i. 0)) ms in
    (exc_thread kern os (λ i. 0) 0 (events ms (failing 2 [])) ≡ (replies, false))
    × (exc_thread kern os (λ i. 0) 0 (events ms (failing 4 (failed ∷ []))) ≡ (replies, true))
exc_thread_example =
    exc_thread_lem kern os (λ i. 0) (message 3 ∷ message 0 ∷ []) 2 (failed ∷ [])
      (omega arith, (omega arith, tt))
