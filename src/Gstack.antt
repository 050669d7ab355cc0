-- ===== src/Gstack.antt =====
-- src/mprompt/gstack.c: growable stacks, the thread's cache of them and its list of delayed ones, saved
-- stacks, and the configuration at start.
pub mod Config
pub mod Save
pub mod Cache
pub mod Delayed
pub mod Settle
pub mod Search
pub mod Alloc
pub mod Clear
pub mod Fault
mod Tests
use libmprompt.Base.{
  ℕ, zero, suc, ◌+◌, ◌-◌, Bool, true, false, not, ◌&&◌, Option, none, some, List, [], ◌∷◌, ◌==◌,
  ltb, leb, if◌then◌else◌, write,
}
use libmprompt.Os.{
  Os, Access, noaccess, noaccess_stack_overflow, access, mp_base, mp_push, mp_unpush,
}
use libmprompt.Util.{align_up, mp_max}

-- `mp_gstack_s`; `extra` is the address of its last field.
pub record Gstack : Type 0 where
  pub next : ℕ
  pub full : ℕ
  pub full_size : ℕ
  pub stack : ℕ
  pub stack_size : ℕ
  pub initial_commit : ℕ
  pub committed : ℕ
  pub extra_size : ℕ
  pub extra : ℕ

-- `mp_gstack_contains`.
unfoldable pub gstack_contains : Gstack → (p : ℕ) → Bool
gstack_contains g p = leb g.stack p && ltb p (g.stack + g.stack_size)

-- `mp_gstack_base_at` and `mp_gstack_base`.
unfoldable pub gstack_base_at : Os → Gstack → (ofs : ℕ) → ℕ
gstack_base_at os g ofs =
    if os.stack_grows_down then g.stack + g.stack_size - ofs else g.stack + ofs

unfoldable pub gstack_base : Os → Gstack → ℕ
unfolding gstack_base_at
gstack_base os g = gstack_base_at os g 0

-- `mp_gsave_s`, its `data` as a function from offsets to bytes.
pub record Gsave : Type 0 where
  pub stack : ℕ
  pub stack_size : ℕ
  pub extra : ℕ
  pub extra_size : ℕ
  pub bytes : ℕ → ℕ

-- `memcpy(dst, src, size)` between a buffer and the memory.
abbrev pub copy : (dst : ℕ → ℕ) → (to : ℕ) → (src : ℕ → ℕ) → (from size : ℕ) → ℕ → ℕ
copy dst to src from size a = if leb to a && ltb a (to + size) then src (from + (a - to)) else dst a

-- `mp_gstack_save`, in a memory of bytes.
unfoldable pub gstack_save : (debug : Bool) → Os → (ℕ → ℕ) → Gstack → (sp : ℕ) → Option Gsave
unfolding gstack_contains mp_unpush
gstack_save debug os memory g sp =
    let stack_size = mp_unpush os sp g.stack g.stack_size in
    let start = if os.stack_grows_down then sp else g.stack in
    let with_extra = copy (λ i. 0) 0 memory g.extra g.extra_size in
    if debug && not (gstack_contains g sp && leb stack_size g.stack_size)
    then none
    else some (record {
      stack = start;
      stack_size = stack_size;
      extra = g.extra;
      extra_size = g.extra_size;
      bytes = copy with_extra g.extra_size memory start stack_size;
    })

-- `mp_gsave_restore`.
unfoldable pub gsave_restore : Gsave → (ℕ → ℕ) → (ℕ → ℕ)
gsave_restore gs memory =
    copy (copy memory gs.extra gs.bytes 0 gs.extra_size) gs.stack gs.bytes gs.extra_size
      gs.stack_size

-- The result of `mp_gstack_check_access` and its output parameters.
pub record StackCheck : Type 0 where
  pub kind : Access
  pub stack_size : ℕ
  pub available : ℕ
  pub commit_available : ℕ

-- `mp_gstack_check_access`; no stack is NULL. The difference that is 0 at least stops at 0 by itself.
unfoldable pub gstack_check_access : Os → Option Gstack → (p : ℕ) → StackCheck
unfolding gstack_contains mp_unpush
gstack_check_access os none p = record {
  kind = noaccess;
  stack_size = 0;
  available = 0;
  commit_available = 0;
}
gstack_check_access os (some g) p =
    let used = mp_unpush os p g.stack g.stack_size in
    if gstack_contains g p
    then record {
      kind = access;
      stack_size = g.stack_size;
      available = g.stack_size - used;
      commit_available = g.committed - used;
    }
    else if leb g.full p && ltb p g.stack
    then record {
      kind = noaccess_stack_overflow;
      stack_size = g.stack_size;
      available = 0;
      commit_available = 0;
    }
    else record { kind = noaccess; stack_size = g.stack_size; available = 0; commit_available = 0 }
