-- ===== src/Prompt/Restore.antt =====
-- `mp_prompt_restore` of src/mprompt/mprompt.c undoes what happened since `mp_prompt_save`.
use libmprompt.Base.{
  ℕ, ◌<◌, ◌≡◌, refl, sym, ap, ◌∙◌, ◌≢◌, true, false, ◌||◌, inl, inr, List, [], ◌∷◌, ◌++◌, arith,
  ◌==◌, if◌then◌else◌, write, length, map, All, All-right, has, Distinct, Bool-cases, ==_refl,
}
use libmprompt.Prompt.State.{State, Prompt, done, check-done}
use libmprompt.Prompt.Ops.{prompt_is_active, prompt_is_suspended}
use libmprompt.Prompt.Chain.{IsSuspended}
use libmprompt.Prompt.Free.{LiveAt}
use libmprompt.Prompt.Unshared.{counted}
use libmprompt.Prompt.Multi.{Save, prompt_save, restore_from, prompt_restore}
use libmprompt.Prompt.Saved.{
  counted_all, dup_of, save_of, saved_chain, resume_sp, captured-LiveAt, prompt_save_lem,
}

abbrev prompts_of : List Save → List ℕ
prompts_of l = map (λ x. x.prompt) l

-- The prompts `f` with the saved ones in their place, the last save of a list winning.
abbrev written : List Save → (ℕ → Prompt) → ℕ → Prompt
written [] f = f
written (x ∷ xs) f = written xs (write f x.prompt x.saved)

written-out :
    (l : List Save) (f : ℕ → Prompt) (y : ℕ) → has y (prompts_of l) ≡ false → written l f y ≡ f y
written-out [] f y o = refl
written-out (x ∷ xs) f y o =
    written-out xs (write f x.prompt x.saved) y (ground arith) ∙ ground arith

written-in :
    (l : List Save) (f : ℕ → Prompt) (v : Prompt) (y : ℕ)
    → All (λ x. x.prompt ≡ y → x.saved ≡ v) l
    → has y (prompts_of l) ≡ true
    → written l f y ≡ v
written-in [] f v y a i = absurd (ground arith)
written-in (x ∷ xs) f v y a i =
    let g = write f x.prompt x.saved in
    elim (Bool-cases (has y (prompts_of xs))) [
      | inl later ↦ written-in xs g v y a.1 later
      | inr last ↦
          let here : x.prompt ≡ y = ground arith in
          written-out xs g y last ∙ rw (here, ==_refl y) (a.0 here)
    ]

abbrev IsLive : (ℕ → Prompt) → Save → Type 0
IsLive f x = ((f x.prompt).live ≡ true) × (x.saved.live ≡ true)

IsLive-write :
    (f : ℕ → Prompt) (p : ℕ) (r : Prompt) (l : List Save)
    → r.live ≡ true
    → All (IsLive f) l
    → All (IsLive (write f p r)) l
IsLive-write f p r [] e a = tt
IsLive-write f p r (x ∷ xs) e a = ((ground arith, a.0.1), IsLive-write f p r xs e a.1)

restore_run :
    (l : List Save) (u : State)
    → All (IsLive u.prompts) l
    → restore_from l u ≡ done tt (record u { prompts = written l u.prompts })
unfolding restore_from
restore_run [] u a = refl
restore_run (x ∷ xs) u a =
    let t = record u { prompts = write u.prompts x.prompt x.saved } in
    rw (restore_from, a.0.0)
      (restore_run xs t (IsLive-write u.prompts x.prompt x.saved xs a.0.1 a.1))

All-always : (P : ℕ → Type 0) (xs : List ℕ) → ((x : ℕ) → P x) → All P xs
All-always P [] h = tt
All-always P (x ∷ xs) h = (h x, All-always P xs h)

All-zip :
    (P Q R : ℕ → Type 0) (xs : List ℕ)
    → ((x : ℕ) → P x → Q x → R x)
    → All P xs
    → All Q xs
    → All R xs
All-zip P Q R [] h a b = tt
All-zip P Q R (x ∷ xs) h a b = (h x a.0 b.0, All-zip P Q R xs h a.1 b.1)

-- What holds of all that is saved.
All-saved_chain :
    (P : Save → Type 0) (s : State) (sp : ℕ) (xs : List ℕ) (acc : List Save)
    → All (λ x. (sp : ℕ) → P (save_of s x sp)) xs
    → All P acc
    → All P (saved_chain s sp xs acc)
All-saved_chain P s sp [] acc each a = a
All-saved_chain P s sp (x ∷ xs) acc each a =
    All-saved_chain P s (s.returns (s.prompts x).return_point).jmp.reg_sp xs (save_of s x sp ∷ acc)
      each.1 (each.0 sp, a)

prompts_of-saved_chain :
    (y : ℕ) (s : State) (sp : ℕ) (xs : List ℕ) (acc : List Save)
    → has y (prompts_of (saved_chain s sp xs acc)) ≡ (has y xs || has y (prompts_of acc))
prompts_of-saved_chain y s sp [] acc = refl
prompts_of-saved_chain y s sp (x ∷ xs) acc =
    prompts_of-saved_chain y s (s.returns (s.prompts x).return_point).jmp.reg_sp xs
      (save_of s x sp ∷ acc)
    ∙ ground arith

-- The last prompt of the chain is the first of the saves.
saved_chain-first :
    (s : State) (sp p : ℕ) (xs : List ℕ) (acc : List Save)
    → (sp' : ℕ) × (rest : List Save) × (saved_chain s sp (xs ++ p ∷ []) acc
        ≡ save_of s p sp' ∷ rest)
saved_chain-first s sp p [] acc = (sp, acc, refl)
saved_chain-first s sp p (x ∷ xs) acc =
    saved_chain-first s (s.returns (s.prompts x).return_point).jmp.reg_sp p xs
      (save_of s x sp ∷ acc)

prompt_restore_run :
    (u : State) (p sp : ℕ) (s : State) (saves rest : List Save)
    → saves ≡ save_of s p sp ∷ rest
    → prompt_is_suspended p u ≡ done true u
    → prompt_restore p saves u ≡ restore_from saves u
unfolding prompt_restore
prompt_restore_run u p sp s saves rest e suspended =
    let first = check-done (prompt_is_suspended p) u suspended in
    rw e (rw (prompt_restore, first, ==_refl p) (ground arith))

-- What the save does to the prompts.
counted_all-prompts :
    (s : State) (xs : List ℕ) (y : ℕ)
    → Distinct xs
    → (counted_all s xs).prompts y ≡ (if has y xs then dup_of s y else s.prompts y)
counted_all-prompts s [] y d = refl
counted_all-prompts s (x ∷ xs) y d =
    counted_all-prompts (counted s x) xs y d.1 ∙ elim (Bool-cases (x == y)) [
      | inl here ↦ let same : x ≡ y = ground arith in rw (sym same, d.0, ==_refl x) refl
      | inr other ↦ rw other refl
    ]

-- What the restore does to them.
restored-prompts :
    (s : State) (sp y : ℕ) (xs : List ℕ) (f : ℕ → Prompt)
    → written (saved_chain s sp xs []) f y ≡ (if has y xs then dup_of s y else f y)
restored-prompts s sp y xs f =
    let saves = saved_chain s sp xs [] in
    let names = prompts_of-saved_chain y s sp xs [] in
    let same =
      All-saved_chain (λ x. x.prompt ≡ y → x.saved ≡ dup_of s y) s sp xs []
        (All-always _ xs (λ x sp' e. ap (dup_of s) e)) tt in
    elim (Bool-cases (has y xs)) [
      | inl i ↦ rw i (written-in saves f (dup_of s y) y same (names ∙ ground arith))
      | inr o ↦ rw o (written-out saves f y (names ∙ ground arith))
    ]

-- Both put the same structure at a prompt of the chain.
restored_now :
    (s s' : State) (y : ℕ) (xs : List ℕ) (r : Prompt)
    → s'.prompts y ≡ (if has y xs then dup_of s y else s.prompts y)
    → (if has y xs then dup_of s y else r) ≡ (if has y xs then s'.prompts y else r)
restored_now s s' y xs r e = elim (Bool-cases (has y xs)) [
  | inl i ↦ rw (e, i) refl
  | inr o ↦ rw o refl
]

suspended_again :
    (u : State) (p : ℕ)
    → p ≢ 0
    → (u.prompts p).live ≡ true
    → (u.prompts p).top ≢ 0
    → prompt_is_suspended p u ≡ done true u
unfolding prompt_is_active
suspended_again u p ne live top = ground arith

-- The captured chain of a suspended prompt is saved, and each of its prompts gets a reference more. In
-- any later state in which the prompts are allocated and the prompt is suspended again, a restore
-- gives each prompt of the chain the structure that it had right after the save, its reference count
-- included, and changes no other prompt.
pub prompt_restore-save :
    (fuel : ℕ) (s u : State) (p : ℕ) (xs : List ℕ)
    → IsSuspended s p xs
    → length xs < fuel
    → All (λ x. (u.prompts x).live ≡ true) (xs ++ p ∷ [])
    → (u.prompts p).top ≢ 0
    → (saves : List Save) × (s' : State) × (u' : State) × (prompt_save fuel p s ≡ done saves s')
      × ((y : ℕ) → s'.prompts y ≡ (if has y (xs ++ p ∷ []) then dup_of s y else s.prompts y))
      × (prompt_restore p saves u ≡ done tt u')
      × ((y : ℕ) → u'.prompts y ≡ (if has y (xs ++ p ∷ []) then s'.prompts y else u.prompts y))
prompt_restore-save fuel s u p xs v n live top =
    let chain = xs ++ p ∷ [] in
    let saves = saved_chain s (resume_sp s p) chain [] in
    let s' = counted_all s chain in
    let u' = record u { prompts = written saves u.prompts } in
    let now = λ (y : ℕ). counted_all-prompts s chain y v.distinct in
    let (sp', rest, first) = saved_chain-first s (resume_sp s p) p xs [] in
    let allocated =
      All-saved_chain (IsLive u.prompts) s (resume_sp s p) chain []
        (All-zip (LiveAt s) (λ x. (u.prompts x).live ≡ true)
          (λ x. (sp : ℕ) → IsLive u.prompts (save_of s x sp)) chain (λ x a b sp. (b, a.1))
          (captured-LiveAt s p xs v) live)
        tt in
    (
      saves,
      s',
      u',
      prompt_save_lem fuel s p xs v n,
      now,
      prompt_restore_run u p sp' s saves rest first (
            suspended_again u p v.ne_null
              (All-right (λ x. (u.prompts x).live ≡ true) xs (p ∷ []) live).0 top)
          ∙ restore_run saves u allocated,
      λ y.
          restored-prompts s (resume_sp s p) y chain u.prompts
          ∙ restored_now s s' y chain (u.prompts y) (now y),
    )
