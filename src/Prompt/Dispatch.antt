-- ===== src/Prompt/Dispatch.antt =====
-- The public operations of src/mprompt/mprompt.c on resumptions of both kinds, by the tag.
use libmprompt.Base.{ℕ, Bool, false, not, ◌&&◌, Option, ◌==◌, if◌then◌else◌}
use libmprompt.Base.Int.{pos, eq_ℤ}
use libmprompt.Prompt.State.{M, ◌>>=◌, ◌>>◌, assert, load}
use libmprompt.Prompt.Ops.{prompt_drop_internal}
use libmprompt.Prompt.Switch.{Jump, prompt_resume, prompt_resume_tail}
use libmprompt.Prompt.Tag.{resume_is_once, resume_is_multi, resume_as_multi}
use libmprompt.Prompt.Multi.{
  Store, lift, resume_multi, mresume_dup, mresume_drop, should_unwind, mresume, mresume_tail,
}

-- `mp_resume_multi`; `r` is the new structure.
unfoldable pub mp_resume_multi : (r once : ℕ) → Store → ℕ × Store
mp_resume_multi r once s =
    let p = resume_is_once once in
    if p == 0 then (once, s) else (resume_as_multi r, resume_multi r p s)

-- The resume of a once resumption.
unfoldable pub resume_once : (p arg ret : ℕ) → M Jump
resume_once p arg ret = do
  r ← load p
  assert (eq_ℤ r.refcount (pos 1))
  assert (not (r.resume_point == 0))
  prompt_resume p arg ret

-- `mp_resume`, up to the jump.
unfoldable pub mp_resume : (fuel resume arg ret : ℕ) → Store → Option (Jump × Store)
mp_resume fuel resume arg ret s =
    let p = resume_is_once resume in
    if p == 0
    then mresume fuel (resume_is_multi resume) arg ret s
    else lift (resume_once p arg ret s.base) s.mresumes

-- `mp_resume_tail`, up to the jump.
unfoldable pub mp_resume_tail : (fuel resume arg ret : ℕ) → Store → Option (Jump × Store)
mp_resume_tail fuel resume arg ret s =
    let p = resume_is_once resume in
    if p == 0
    then mresume_tail fuel (resume_is_multi resume) arg ret s
    else lift (prompt_resume_tail p arg (s.base.prompts p).return_point s.base) s.mresumes

-- `mp_resume_drop`.
unfoldable pub mp_resume_drop : (fuel resume : ℕ) → Store → Option (Unit {0} × Store)
mp_resume_drop fuel resume s =
    let p = resume_is_once resume in
    if p == 0
    then mresume_drop fuel (resume_is_multi resume) s
    else lift (prompt_drop_internal fuel p false s.base) s.mresumes

-- `mp_resume_dup`: NULL, after a message, for a once resumption.
unfoldable pub mp_resume_dup : (resume : ℕ) → Store → ℕ × Store
mp_resume_dup resume s =
    let r = resume_is_multi resume in if r == 0 then (0, s) else (resume, mresume_dup r s)

-- `mp_resume_resume_count`.
unfoldable pub mp_resume_resume_count : (resume : ℕ) → Store → ℕ
mp_resume_resume_count resume s =
    let r = resume_is_multi resume in if r == 0 then 0 else (s.mresumes r).resume_count

-- `mp_resume_should_unwind`.
unfoldable pub mp_resume_should_unwind : (resume : ℕ) → Store → Bool
mp_resume_should_unwind resume s =
    let r = resume_is_multi resume in not (r == 0) && should_unwind r s
