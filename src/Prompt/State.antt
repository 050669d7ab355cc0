-- ===== src/Prompt/State.antt =====
-- The types of src/mprompt/mprompt.c and the memory that its functions share: the prompt
-- structures, the return and resume points that stand on the stacks, and the thread's globals.
-- Addresses are numbers, and 0 is NULL. A run ends with a value, with a fault (a failed assertion
-- of a debug build, or an access to a prompt that is not allocated), or with `mp_fatal_message`.
use libmprompt.Base.{ℕ, ◌≡◌, Bool, true, false, not, ◌&&◌, List, ◌∷◌, if◌then◌else◌, write, arith}
use libmprompt.Base.Int.{ℤ}

pub data ReturnKind : Type 0 where
  returned exception yielded : ReturnKind

-- What the code itself reads in a jump buffer. The other registers belong to the assembler parts.
pub record Jmpbuf : Type 0 where
  pub reg_ip : ℕ
  pub reg_sp : ℕ

pub record ResumePoint : Type 0 where
  pub jmp : Jmpbuf
  pub result : ℕ

pub record ReturnPoint : Type 0 where
  pub jmp : Jmpbuf
  pub kind : ReturnKind
  pub fun : ℕ
  pub arg : ℕ

-- `live` says that the storage is allocated.
pub record Prompt : Type 0 where
  pub parent : ℕ
  pub top : ℕ
  pub refcount : ℤ
  pub gstack : ℕ
  pub return_point : ℕ
  pub resume_point : ℕ
  pub sp : ℕ
  pub unwind_frame : ℕ
  pub live : Bool

-- `debug` says whether assertions are compiled in. `released` lists the calls of `mp_gstack_free`,
-- the latest first, with their `delay` argument.
pub record State : Type 0 where
  pub prompts : ℕ → Prompt
  pub returns : ℕ → ReturnPoint
  pub resumes : ℕ → ResumePoint
  pub prompt_top : ℕ
  pub return_label : ℕ
  pub resume_label : ℕ
  pub cookie : ℕ
  pub debug : Bool
  pub released : List (ℕ × Bool)

pub data Run (A : Type 0) : Type 0 where
  done : A → State → Run A
  fault : Run A
  fatal : ℕ → Run A

abbrev pub M : Type 0 → Type 0
M A = State → Run A

abbrev pub pure : {A : Type 0} → A → M A
pure a s = done a s

abbrev pub and_then : {A B : Type 0} → Run A → (A → M B) → Run B
and_then (done a s) f = f a s
and_then fault f = fault
and_then (fatal e) f = fatal e

infixl 5 ◌>>=◌ ◌>>◌
abbrev pub ◌>>=◌ : {A B : Type 0} → M A → (A → M B) → M B
◌>>=◌ m f s = and_then (m s) f

abbrev pub ◌>>◌ : {B : Type 0} → M (Unit {0}) → M B → M B
m >> k = m >>= λ _. k

abbrev pub enomem : ℕ
enomem = 12

abbrev pub efault : ℕ
efault = 14

abbrev pub get : M State
get s = done s s

abbrev pub put : State → M (Unit {0})
put s' s = done tt s'

-- `mp_assert` and `mp_assert_internal`.
abbrev pub assert : Bool → M (Unit {0})
assert b s = if s.debug && not b then fault else done tt s

abbrev pub fail : {A : Type 0} → ℕ → M A
fail e s = fatal e

-- An assertion whose condition reads the state; a release build does not evaluate it.
abbrev pub check : M Bool → M (Unit {0})
check m s = if s.debug then and_then (m s) (λ b s'. if b then done tt s' else fault) else done tt s

-- Dereference a prompt.
abbrev pub load : ℕ → M Prompt
load p s = if (s.prompts p).live then done (s.prompts p) s else fault

-- Assign the fields of a prompt.
abbrev pub store : ℕ → Prompt → M (Unit {0})
store p r s =
    if (s.prompts p).live then done tt (record s { prompts = write s.prompts p r }) else fault

abbrev pub set_top : ℕ → M (Unit {0})
set_top p s = done tt (record s { prompt_top = p })

abbrev pub set_return : ℕ → ReturnPoint → M (Unit {0})
set_return p r s = done tt (record s { returns = write s.returns p r })

abbrev pub set_resume : ℕ → ResumePoint → M (Unit {0})
set_resume p r s = done tt (record s { resumes = write s.resumes p r })

-- The call of `mp_gstack_free` with the stack of the prompt `p`, whose structure goes with it.
abbrev pub release : ℕ → Prompt → Bool → M (Unit {0})
release p r delay s = done tt (record s {
  prompts = write s.prompts p (record r { live = false });
  released = (r.gstack, delay) ∷ s.released;
})

-- An assertion that holds does nothing.
pub check-done : (m : M Bool) (s : State) → m s ≡ done true s → check m s ≡ done tt s
check-done m s e = rw e (ground arith)

pub load-done : (p : ℕ) (s : State) → (s.prompts p).live ≡ true → load p s ≡ done (s.prompts p) s
load-done p s h = ground arith

pub assert-done : (b : Bool) (s : State) → b ≡ true → assert b s ≡ done tt s
assert-done b s h = ground arith

-- In a debug build, an assertion that does not hold is a fault.
pub check-fault : (m : M Bool) (s : State) → s.debug ≡ true → m s ≡ done false s → check m s ≡ fault
check-fault m s d e = rw e (ground arith)
