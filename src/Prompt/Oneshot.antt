-- ===== src/Prompt/Oneshot.antt =====
-- A multi-shot resumption of src/mprompt/mprompt.c that is resumed once does what the once resumption
-- that it was made of does.
use libmprompt.Base.{
  ℕ, ◌+◌, ◌%◌, ◌≡◌, ◌≢◌, refl, ap, ◌∙◌, fun_ext, true, false, Option, none, some, [], arith, ◌==◌,
  write_self, ==_refl, ==_iff, Bool-cases, inl, inr,
}
use libmprompt.Base.Int.{ℤ, pos, ◌+ℤ◌, dec}
use libmprompt.Prompt.State.{Prompt, State, Run, done, fault, fatal}
use libmprompt.Prompt.Switch.{Jump, prompt_resume}
use libmprompt.Prompt.Drop.{decremented}
use libmprompt.Prompt.Tag.{
  resume_is_once, resume_is_multi, resume_as_multi, resume_as_once, resume_kinds_apart,
}
use libmprompt.Prompt.Multi.{Store, Mresume, lift, set_mresume, resume_multi, mresume, get_prompt}
use libmprompt.Prompt.Unshared.{counted, get_prompt_run}
use libmprompt.Prompt.Dispatch.{mp_resume_multi, resume_once, mp_resume}

-- A jump with the state of the prompts, without the structures of multi-shot resumptions.
abbrev pub on_prompts : Option (Jump × Store) → Option (Jump × State)
on_prompts none = none
on_prompts (some (j, s)) = some (j, s.base)

on_prompts-lift :
    (x : Run Jump) (ms ms' : ℕ → Mresume) → on_prompts (lift x ms) ≡ on_prompts (lift x ms')
on_prompts-lift (done j s) ms ms' = refl
on_prompts-lift fault ms ms' = refl
on_prompts-lift (fatal e) ms ms' = refl

refreshed :
    (r : Prompt) → r.refcount ≡ pos 1 → record r { refcount = dec (r.refcount +ℤ pos 1) } ≡ r
refreshed r c = ap (λ (z : ℤ). record r { refcount = z }) (rw c refl)

-- A reference more and a reference less.
decremented-counted :
    (s : State) (p : ℕ) → (s.prompts p).refcount ≡ pos 1 → decremented (counted s p) p ≡ s
unfolding decremented
decremented-counted s p c =
    ap (λ (f : ℕ → Prompt). record s { prompts = f }) (fun_ext (λ x. back x))
  where
    back : (x : ℕ) → (decremented (counted s p) p).prompts x ≡ s.prompts x
    back x = elim (Bool-cases (p == x)) [
      | inl e ↦ rw (e, ==_refl p) (refreshed (s.prompts p) c ∙ ap s.prompts ((==_iff p x).0 e))
      | inr e ↦ rw e refl
    ]

resume_once_run :
    (s : State) (p arg ret : ℕ)
    → (s.prompts p).live ≡ true
    → (s.prompts p).refcount ≡ pos 1
    → (s.prompts p).resume_point ≢ 0
    → resume_once p arg ret s ≡ prompt_resume p arg ret s
unfolding resume_once
resume_once_run s p arg ret l c n = ground (arith, l, c, n)

module _ (t : Store) (fuel r p : ℕ) (single : (t.mresumes r).refcount ≡ pos 1)
    (unsaved : (t.mresumes r).save ≡ []) (of : (t.mresumes r).prompt ≡ p)
    (live : (t.base.prompts p).live ≡ true) (owned : (t.base.prompts p).refcount ≡ pos 1) where
  get_prompt_fresh :
      (ms : ℕ → Mresume) × (get_prompt fuel r t ≡ some (p, record { base = t.base; mresumes = ms }))
  get_prompt_fresh =
      let (ms, run, freed) = get_prompt_run t fuel r single unsaved (rw of live) (rw of owned) in
      (ms, run ∙ rw (of, decremented-counted t.base p owned) refl)

mresume_run :
    (t : Store) (fuel r p arg ret : ℕ)
    → (t.mresumes r).refcount ≡ pos 1
    → (t.mresumes r).save ≡ []
    → (t.mresumes r).prompt ≡ p
    → (t.base.prompts p).live ≡ true
    → (t.base.prompts p).refcount ≡ pos 1
    → (ms : ℕ → Mresume) × (mresume fuel r arg ret t ≡ lift (prompt_resume p arg ret t.base) ms)
unfolding mresume
mresume_run t fuel r p arg ret single unsaved of live owned =
    let m = t.mresumes r in
    let t' = set_mresume t r (record m { resume_count = m.resume_count + 1 }) in
    let at : t'.mresumes r ≡ record m { resume_count = m.resume_count + 1 } =
      write_self t.mresumes r (record m { resume_count = m.resume_count + 1 }) in
    let (ms, run) =
      get_prompt_fresh t' fuel r p (rw at single) (rw at unsaved) (rw at of) live owned in
    (ms, rw (mresume, run) refl)

untagged : (p : ℕ) → p % 8 ≡ 0 → resume_is_once p ≡ p
unfolding resume_as_once
untagged p h = (resume_kinds_apart p h).0

resume_multi_at :
    (s : Store) (r p : ℕ)
    → (resume_multi r p s).mresumes r ≡ record {
      refcount = pos 1;
      resume_count = 0;
      prompt = p;
      save = [];
      tail_return_point = (s.base.prompts p).return_point;
      live = true;
    }
unfolding resume_multi
resume_multi_at s r p = write_self s.mresumes r _

made :
    (s : Store) (r p : ℕ)
    → resume_is_once p ≡ p
    → p ≢ 0
    → mp_resume_multi r p s ≡ (resume_as_multi r, resume_multi r p s)
unfolding mp_resume_multi
made s r p own ne =
    let null : (p == 0) ≡ false = ground arith in rw (mp_resume_multi, own, null) refl

as_once :
    (s : Store) (fuel p arg ret : ℕ)
    → resume_is_once p ≡ p
    → p ≢ 0
    → mp_resume fuel p arg ret s ≡ lift (resume_once p arg ret s.base) s.mresumes
unfolding mp_resume
as_once s fuel p arg ret own ne =
    let null : (p == 0) ≡ false = ground arith in rw (mp_resume, own, null) refl

as_multi :
    (t : Store) (fuel x r arg ret : ℕ)
    → resume_is_once x ≡ 0
    → resume_is_multi x ≡ r
    → mp_resume fuel x arg ret t ≡ mresume fuel r arg ret t
unfolding mp_resume
as_multi t fuel x r arg ret none_once other = rw (mp_resume, none_once, other) refl

-- A once resumption that is made a multi-shot one and is resumed jumps to the same place, and leaves the
-- prompts, their return points and resume points, and the thread's variables the same, as if it had been
-- resumed as it was; its prompt has no other reference and a resume point, and its structure and the new
-- one stand at multiples of 8.
pub multi_resumes_as_once :
    (s : Store) (fuel r p arg ret : ℕ)
    → p % 8 ≡ 0
    → r % 8 ≡ 0
    → p ≢ 0
    → (s.base.prompts p).live ≡ true
    → (s.base.prompts p).refcount ≡ pos 1
    → (s.base.prompts p).resume_point ≢ 0
    → let made = mp_resume_multi r p s in
      on_prompts (mp_resume fuel made.0 arg ret made.1) ≡ on_prompts (mp_resume fuel p arg ret s)
unfolding resume_multi
multi_resumes_as_once s fuel r p arg ret a b ne l c n =
    let own = untagged p a in
    let other = resume_kinds_apart r b in
    let t = resume_multi r p s in
    let at = resume_multi_at s r p in
    let (ms, run) = mresume_run t fuel r p arg ret (rw at refl) (rw at refl) (rw at refl) l c in
    rw
      (
        made s r p own ne,
        as_once s fuel p arg ret own ne,
        as_multi t fuel (resume_as_multi r) r arg ret other.3 other.2,
        run,
        resume_once_run s.base p arg ret l c n,
      )
      (on_prompts-lift (prompt_resume p arg ret s.base) ms s.mresumes)
