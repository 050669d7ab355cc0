-- ===== src/Prompt/Unshared.antt =====
-- The last resume of a multi-shot resumption: `mp_resume_get_prompt` of src/mprompt/mprompt.c.
use libmprompt.Base.{ℕ, ◌≡◌, refl, true, false, ◌||◌, some, [], arith, ==_refl, write}
use libmprompt.Base.Int.{pos, ◌+ℤ◌, dec, leb_ℤ, ltb_ℤ}
use libmprompt.Prompt.State.{State, done}
use libmprompt.Prompt.Ops.{prompt_dup, prompt_drop_internal}
use libmprompt.Prompt.Drop.{decremented, prompt_drop_shared}
use libmprompt.Prompt.Multi.{Store, Mresume, make_pristine, mresume_drop, drop_saves, get_prompt}

-- The prompts with one more reference to `p`.
abbrev pub counted : State → ℕ → State
counted s p = record s {
  prompts = write s.prompts p (record (s.prompts p) { refcount = (s.prompts p).refcount +ℤ pos 1 });
}

module _ (s : Store) (fuel r : ℕ) (single : (s.mresumes r).refcount ≡ pos 1)
    (nothing_saved : (s.mresumes r).save ≡ [])
    (live : (s.base.prompts (s.mresumes r).prompt).live ≡ true)
    (owned : (s.base.prompts (s.mresumes r).prompt).refcount ≡ pos 1) where
  pristine : make_pristine fuel r s ≡ some (tt, s)
  unfolding make_pristine
  pristine =
      let m = s.mresumes r in
      let shared : (ltb_ℤ (pos 1) m.refcount || ltb_ℤ (pos 1) (s.base.prompts m.prompt).refcount)
          ≡ false =
        rw (single, owned) refl in
      rw (make_pristine, nothing_saved, shared) refl

  p : ℕ
  p = (s.mresumes r).prompt

  dup_run : prompt_dup p s.base ≡ done p (counted s.base p)
  unfolding prompt_dup p
  dup_run = ground arith

  last_prompt :
      (prompt_drop_internal fuel p false (counted s.base p)
        ≡ done tt (decremented (counted s.base p) p))
      × (((decremented (counted s.base p) p).prompts p).refcount ≡ pos 1)
  unfolding p
  last_prompt = prompt_drop_shared (counted s.base p) fuel p 0 false (ground arith) (ground arith)

  -- The structures after the drop.
  dropped : ℕ → Mresume
  dropped =
      let m = s.mresumes r in
      let ms = write s.mresumes r (record m { refcount = dec m.refcount }) in
      write ms r (record (ms r) { live = false })

  no_saves : (b : State) → drop_saves fuel (s.mresumes r).save b ≡ done tt b
  unfolding drop_saves
  no_saves b = rw (nothing_saved, drop_saves) refl

  drop_run :
      mresume_drop fuel r (record s { base = counted s.base p })
      ≡ some (tt, record { base = decremented (counted s.base p) p; mresumes = dropped })
  unfolding mresume_drop dropped p
  drop_run =
      let first : leb_ℤ (s.mresumes r).refcount (pos 1) ≡ true = rw single refl in
      rw (mresume_drop, first, no_saves (counted s.base p), last_prompt.0) refl

  dropped-live : (dropped r).live ≡ false
  unfolding dropped
  dropped-live = ground (arith, ==_refl r)

-- The run, and the state of the prompts after it.
pub get_prompt_run :
    (s : Store) (fuel r : ℕ)
    → (s.mresumes r).refcount ≡ pos 1
    → (s.mresumes r).save ≡ []
    → (s.base.prompts (s.mresumes r).prompt).live ≡ true
    → (s.base.prompts (s.mresumes r).prompt).refcount ≡ pos 1
    → let p = (s.mresumes r).prompt in
      (ms : ℕ → Mresume) × (get_prompt fuel r s
        ≡ some (p, record { base = decremented (counted s.base p) p; mresumes = ms }))
      × ((ms r).live ≡ false)
unfolding get_prompt p
get_prompt_run s fuel r single saved live owned = (
  dropped s fuel r single saved live owned,
  rw
      (
        get_prompt,
        pristine s fuel r single saved live owned,
        dup_run s fuel r single saved live owned,
        drop_run s fuel r single saved live owned,
      )
      refl,
  dropped-live s fuel r single saved live owned,
)

-- The resume of a multi-shot resumption that has one reference and no saved chain, while its prompt has
-- no other reference, gives the prompt with the one reference that a once resumption has. The
-- resumption is freed, and nothing fails.
get_prompt_unshared :
    (s : Store) (fuel r : ℕ)
    → (s.mresumes r).refcount ≡ pos 1
    → (s.mresumes r).save ≡ []
    → (s.base.prompts (s.mresumes r).prompt).live ≡ true
    → (s.base.prompts (s.mresumes r).prompt).refcount ≡ pos 1
    → let p = (s.mresumes r).prompt in
      (t : Store) × (get_prompt fuel r s ≡ some (p, t))
      × ((t.base.prompts p).refcount ≡ pos 1)
      × ((t.mresumes r).live ≡ false)
unfolding p
get_prompt_unshared s fuel r single saved live owned =
    let p = (s.mresumes r).prompt in
    let (ms, run, freed) = get_prompt_run s fuel r single saved live owned in
    (
      record { base = decremented (counted s.base p) p; mresumes = ms },
      run,
      (last_prompt s fuel r single saved live owned).1,
      freed,
    )
