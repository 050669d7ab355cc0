-- ===== src/Effect/State.antt =====
-- The types of src/mpeff/mpeff.c and the memory that its functions share: the frames, which stand on
-- the execution stacks, the handler definitions, and the thread's top frame. Addresses are numbers,
-- and 0 is NULL.
use libmprompt.Base.{ℕ, Bool, not, ◌&&◌, Option, none, some, if◌then◌else◌, write}

-- The effect tags of the frames that are no handlers: addresses of static data, so that any three
-- different numbers other than 0 do.
abbrev pub frame_under : ℕ
frame_under = 1

abbrev pub frame_mask : ℕ
frame_mask = 2

abbrev pub frame_finally : ℕ
frame_finally = 3

-- A frame of any kind: `effect` tells which of the other fields belong to it. A handler frame has
-- `prompt`, `hdef` and `local`; an under frame `under`; a mask frame `mask` and `from`; a finally frame
-- `fun` and `local`.
pub record Frame : Type 0 where
  pub effect : ℕ
  pub parent : ℕ
  pub prompt : ℕ
  pub hdef : ℕ
  pub local : ℕ
  pub under : ℕ
  pub mask : ℕ
  pub from : ℕ
  pub fun : ℕ

-- `mpe_opkind_t`.
pub data OpKind : Type 0 where
  op_null op_forward op_abort op_never op_tail_noop op_tail op_scoped_once op_scoped op_once
        op_multi :
      OpKind

-- `mpe_operation_t`, without its tag, which the code does not read.
pub record Operation : Type 0 where
  pub opkind : OpKind
  pub opfun : ℕ

-- `mpe_handlerdef_t`.
pub record HandlerDef : Type 0 where
  pub effect : ℕ
  pub resultfun : ℕ
  pub operations : ℕ → Operation

-- `mpe_resumption_kind_t`.
pub data ResumptionKind : Type 0 where
  inplace scoped_once once multi : ResumptionKind

pub record State : Type 0 where
  pub frames : ℕ → Frame
  pub frame_top : ℕ
  pub hdefs : ℕ → HandlerDef
  pub debug : Bool

-- A run that fails an assertion of a debug build, or a search without fuel, has no result.
abbrev pub M : Type 0 → Type 0
M A = State → Option (A × State)

abbrev pub pure : {A : Type 0} → A → M A
pure a s = some (a, s)

abbrev pub and_then : {A B : Type 0} → Option (A × State) → (A → M B) → Option (B × State)
and_then none f = none
and_then (some (a, s)) f = f a s

infixl 5 ◌>>=◌ ◌>>◌
abbrev pub ◌>>=◌ : {A B : Type 0} → M A → (A → M B) → M B
◌>>=◌ m f s = and_then (m s) f

abbrev pub ◌>>◌ : {B : Type 0} → M (Unit {0}) → M B → M B
m >> k = m >>= λ _. k

abbrev pub get : M State
get s = some (s, s)

abbrev pub set_top : ℕ → M (Unit {0})
set_top f s = some (tt, record s { frame_top = f })

abbrev pub store : ℕ → Frame → M (Unit {0})
store f r s = some (tt, record s { frames = write s.frames f r })

abbrev pub assert : Bool → M (Unit {0})
assert b s = if s.debug && not b then none else some (tt, s)
