-- ===== src/Gstack/Fault.antt =====
-- `mp_gstack_check_access` of src/mprompt/gstack.c.
use libmprompt.Base.{ℕ, ◌+◌, ◌-◌, ◌≤◌, ◌<◌, ◌≡◌, ◌≢◌, true, some, arith}
use libmprompt.Os.{Os, noaccess_stack_overflow, access}
use libmprompt.Gstack.{Gstack, gstack_check_access}

-- An address on the stack, away from its base, is accessible; the room up to the limit of the stack and
-- up to the end of the committed part is what the distance from the base leaves.
pub gstack_accessible :
    (os : Os) (g : Gstack) (p : ℕ)
    → os.stack_grows_down ≡ true
    → g.stack ≤ p
    → p < g.stack + g.stack_size
    → let r = gstack_check_access os (some g) p in
      (r.kind ≡ access)
      × (r.available ≡ p - g.stack)
      × (r.commit_available ≡ g.committed - (g.stack + g.stack_size - p))
unfolding gstack_check_access
gstack_accessible os g p d h k = ground arith

-- With a stack that starts where its reserved memory starts, as all stacks from a pool do, no address
-- is ever reported as a stack overflow.
no_overflow_reported :
    (os : Os) (g : Gstack) (p : ℕ)
    → g.stack ≡ g.full
    → (gstack_check_access os (some g) p).kind ≢ noaccess_stack_overflow
unfolding gstack_check_access
no_overflow_reported os g p h = ground arith
