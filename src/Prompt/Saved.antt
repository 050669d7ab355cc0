-- ===== src/Prompt/Saved.antt =====
-- `mp_prompt_save` of src/mprompt/mprompt.c: what is saved of a captured chain.
use libmprompt.Base.{
  ℕ, zero, suc, ◌<◌, ◌≡◌, refl, ap, ◌∙◌, ◌≢◌, true, false, List, [], ◌∷◌, ◌++◌, arith, ◌==◌, length,
  All, All-mono, All-append, has, Distinct, ne_of_has, ==_refl, length-append,
}
use libmprompt.Base.Int.{pos, ◌+ℤ◌}
use libmprompt.Base.Chain.{Chain}
use libmprompt.Prompt.State.{State, Prompt, done, check-done}
use libmprompt.Prompt.Ops.{prompt_is_suspended, prompt_dup}
use libmprompt.Prompt.Chain.{IsSuspended, ActiveAt, parent_of, Chain-frame}
use libmprompt.Prompt.Free.{LiveAt}
use libmprompt.Prompt.Yield.{prompt_is_suspended-true}
use libmprompt.Prompt.Unshared.{counted}
use libmprompt.Prompt.Multi.{Save, save_from, prompt_save}

-- The prompts `xs`, each with one more reference.
abbrev pub counted_all : State → List ℕ → State
counted_all s [] = s
counted_all s (x ∷ xs) = counted_all (counted s x) xs

-- The structure of a prompt with one more reference.
abbrev pub dup_of : State → ℕ → Prompt
dup_of s x = record (s.prompts x) { refcount = (s.prompts x).refcount +ℤ pos 1 }

-- The saves of the prompts `xs` in front of `acc`, the last one first: each one's structure, with the
-- reference of the save, and its stack from the stack pointer at which the inner prompt entered.
abbrev pub saved_chain : State → (sp : ℕ) → List ℕ → List Save → List Save
saved_chain s sp [] acc = acc
saved_chain s sp (x ∷ xs) acc =
    saved_chain s (s.returns (s.prompts x).return_point).jmp.reg_sp xs
      (record { prompt = x; sp = sp; saved = dup_of s x } ∷ acc)

-- Only the prompts in the list and the return points matter.
saved_chain-agree :
    (s s' : State) (sp : ℕ) (xs : List ℕ) (acc : List Save)
    → ((x : ℕ) → has x xs ≡ true → s'.prompts x ≡ s.prompts x)
    → s'.returns ≡ s.returns
    → saved_chain s' sp xs acc ≡ saved_chain s sp xs acc
saved_chain-agree s s' sp [] acc same ret = refl
saved_chain-agree s s' sp (x ∷ xs) acc same ret =
    let e = same x (ground arith) in
    rw (e, ret)
      (saved_chain-agree s s' (s.returns (s.prompts x).return_point).jmp.reg_sp xs
        (record { prompt = x; sp = sp; saved = dup_of s x } ∷ acc) (λ y i. same y (ground arith))
        ret)

dup_run : (s : State) (x : ℕ) → (s.prompts x).live ≡ true → prompt_dup x s ≡ done x (counted s x)
unfolding prompt_dup
dup_run s x live = ground arith

counted-other : (s : State) (p x : ℕ) → (p == x) ≡ false → (counted s p).prompts x ≡ s.prompts x
counted-other s p x ne = ground arith

LiveAt-counted :
    (s : State) (x : ℕ) (xs : List ℕ)
    → has x xs ≡ false
    → All (LiveAt s) xs
    → All (LiveAt (counted s x)) xs
LiveAt-counted s x xs out a =
    All-mono (LiveAt s) (LiveAt (counted s x)) xs
      (λ y i l. rw (counted-other s x y (ne_of_has x y xs i out)) l) a

abbrev pub save_of : State → (p sp : ℕ) → Save
save_of s p sp = record { prompt = p; sp = sp; saved = dup_of s p }

save_from-last :
    (fuel : ℕ) (s : State) (p sp : ℕ) (acc : List Save)
    → (s.prompts p).live ≡ true
    → parent_of s p ≡ 0
    → save_from (suc fuel) p sp acc s ≡ done (save_of s p sp ∷ acc) (counted s p)
unfolding save_from
save_from-last fuel s p sp acc live e =
    let root : (parent_of s p == 0) ≡ true = ground arith in
    rw (save_from, dup_run s p live, ==_refl p, root) refl

save_from-next :
    (fuel : ℕ) (s : State) (p sp : ℕ) (acc : List Save)
    → (s.prompts p).live ≡ true
    → parent_of s p ≢ 0
    → save_from (suc fuel) p sp acc s
      ≡ save_from fuel
          (parent_of s p)
          (s.returns (s.prompts p).return_point).jmp.reg_sp
          (save_of s p sp ∷ acc)
          (counted s p)
unfolding save_from
save_from-next fuel s p sp acc live ne =
    let inner : (parent_of s p == 0) ≡ false = ground arith in
    rw (save_from, dup_run s p live, ==_refl p, inner) refl

save_from_lem :
    (fuel : ℕ) (s : State) (p sp : ℕ) (xs : List ℕ) (acc : List Save)
    → Chain (parent_of s) (parent_of s p) xs 0
    → LiveAt s p
    → All (LiveAt s) xs
    → Distinct (p ∷ xs)
    → length xs < fuel
    → save_from fuel p sp acc s ≡ done (saved_chain s sp (p ∷ xs) acc) (counted_all s (p ∷ xs))
save_from_lem zero s p sp xs acc c l a d n = absurd (omega arith)
save_from_lem (suc fuel) s p sp [] acc c l a d n = save_from-last fuel s p sp acc l.1 c
save_from_lem (suc fuel) s p sp (x ∷ xs) acc c l a d n =
    let t = counted s p in
    let apart : (i : ℕ) → has i (x ∷ xs) ≡ true → t.prompts i ≡ s.prompts i =
      λ i h. counted-other s p i (ne_of_has p i (x ∷ xs) h d.0) in
    let sp' = (s.returns (s.prompts p).return_point).jmp.reg_sp in
    let live = LiveAt-counted s p (x ∷ xs) d.0 a in
    let up = (Chain-frame s t (parent_of s p) 0 (x ∷ xs) apart c).1 in
    let ne : parent_of s p ≢ 0 = rw c.0 a.0.0 in
    let rest =
      save_from_lem fuel t x sp' xs (save_of s p sp ∷ acc) up live.0 live.1 d.1 (omega arith) in
    save_from-next fuel s p sp acc l.1 ne
    ∙ ap (λ q. save_from fuel q sp' (save_of s p sp ∷ acc) t) c.0
    ∙ rest
    ∙ ap (λ saves. done saves (counted_all t (x ∷ xs)))
        (saved_chain-agree s t sp' (x ∷ xs) (save_of s p sp ∷ acc) apart refl)

saves_run :
    (fuel : ℕ) (s : State) (a sp : ℕ) (xs : List ℕ)
    → Chain (parent_of s) a xs 0
    → a ≢ 0
    → All (LiveAt s) xs
    → Distinct xs
    → length xs < suc fuel
    → save_from fuel a sp [] s ≡ done (saved_chain s sp xs []) (counted_all s xs)
saves_run fuel s a sp [] c ne l d n = absurd (ne c)
saves_run fuel s a sp (x ∷ xs) c ne l d n =
    ap (λ q. save_from fuel q sp [] s) c.0
    ∙ save_from_lem fuel s x sp xs [] c.1 l.0 l.1 d (omega arith)

pub captured-LiveAt :
    (s : State) (p : ℕ) (xs : List ℕ) → IsSuspended s p xs → All (LiveAt s) (xs ++ p ∷ [])
captured-LiveAt s p xs v =
    All-append (LiveAt s) xs (p ∷ [])
      (All-mono (ActiveAt s) (LiveAt s) xs (λ x i a. (a.0, a.1)) v.above) ((v.ne_null, v.live), tt)

-- Where the stack of the innermost captured prompt was left.
abbrev pub resume_sp : State → ℕ → ℕ
resume_sp s p = (s.resumes (s.prompts p).resume_point).jmp.reg_sp

pub prompt_save_lem :
    (fuel : ℕ) (s : State) (p : ℕ) (xs : List ℕ)
    → IsSuspended s p xs
    → length xs < fuel
    → prompt_save fuel p s
      ≡ done (saved_chain s (resume_sp s p) (xs ++ p ∷ []) []) (counted_all s (xs ++ p ∷ []))
unfolding prompt_save
prompt_save_lem fuel s p xs v n =
    let first = check-done (prompt_is_suspended p) s (prompt_is_suspended-true s p xs v) in
    rw (prompt_save, first)
      (saves_run fuel s (s.prompts p).top (resume_sp s p) (xs ++ p ∷ []) v.chain v.top_ne
        (captured-LiveAt s p xs v) v.distinct (omega (arith, length-append xs (p ∷ []))))
