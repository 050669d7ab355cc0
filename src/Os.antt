-- ===== src/Os.antt =====
-- The static configuration of src/mprompt/gstack.c, and its arithmetic on stack addresses. Sizes and
-- addresses are natural numbers.
use libmprompt.Base.{ℕ, ◌+◌, ◌-◌, ◌*◌, Bool, true, false, if◌then◌else◌}
use libmprompt.Util.{kib, mib, gib}

pub record Os : Type 0 where
  pub use_gpools : Bool
  pub use_overcommit : Bool
  pub stack_grows_down : Bool
  pub page_size : ℕ
  pub gstack_initial_commit : ℕ
  pub gstack_size : ℕ
  pub gstack_gap : ℕ
  pub gstack_reset_decommits : Bool
  pub gstack_grow_fast : Bool
  pub gstack_cache_max_count : ℕ
  pub gstack_exn_guaranteed : ℕ
  pub gpool_max_size : ℕ

-- The initial values of the static variables.
abbrev pub os_start : Os
os_start = record {
  use_gpools = true;
  use_overcommit = false;
  stack_grows_down = true;
  page_size = 0;
  gstack_initial_commit = 0;
  gstack_size = 8 * mib;
  gstack_gap = 64 * kib;
  gstack_reset_decommits = false;
  gstack_grow_fast = true;
  gstack_cache_max_count = 4;
  gstack_exn_guaranteed = 32 * kib;
  gpool_max_size = 256 * gib;
}

-- `mp_base`: the logical bottom of a stack area.
unfoldable pub mp_base : Os → (sp size : ℕ) → ℕ
mp_base os sp size = if os.stack_grows_down then sp + size else sp

-- `mp_push`: the moved pointer.
unfoldable pub mp_push : Os → (sp size : ℕ) → ℕ
mp_push os sp size = if os.stack_grows_down then sp - size else sp + size

-- `mp_push`: the start of the area that is passed over.
unfoldable pub push_start : Os → (sp size : ℕ) → ℕ
push_start os sp size = if os.stack_grows_down then sp - size else sp

-- `mp_unpush`: how far `sp` is into the stack.
unfoldable pub mp_unpush : Os → (sp stk stk_size : ℕ) → ℕ
mp_unpush os sp stk stk_size = if os.stack_grows_down then stk + stk_size - sp else sp - stk

-- `mp_access_e`: what the fault handlers learn of an address.
pub data Access : Type 0 where
  noaccess noaccess_stack_overflow access access_meta : Access
