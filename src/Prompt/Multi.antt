-- ===== src/Prompt/Multi.antt =====
-- The multi-shot resumptions of src/mprompt/mprompt.c: reference counted, with a saved copy of the
-- captured chain once the resumption is shared. No result is a fault of the code on prompts, a failed
-- assertion, or fuel that ran out.
use libmprompt.Base.{
  ℕ, zero, suc, ◌+◌, Bool, true, false, not, ◌&&◌, ◌||◌, Option, none, some, List, [], ◌∷◌, ◌==◌,
  if◌then◌else◌, write,
}
use libmprompt.Base.Int.{ℤ, pos, ◌+ℤ◌, dec, leb_ℤ, ltb_ℤ, eq_ℤ}
use libmprompt.Prompt.State.{Prompt, State, Run, done, fault, fatal, store, check}
use libmprompt.Prompt.Ops.{prompt_is_suspended, prompt_drop_internal, prompt_dup}
use libmprompt.Prompt.Switch.{Jump, prompt_resume, prompt_resume_tail}

-- `mp_prompt_save_t` with its `mp_gsave_t`: a prompt structure and the stack from `sp` on. The bytes of
-- the stack are not part of this model.
pub record Save : Type 0 where
  pub prompt : ℕ
  pub sp : ℕ
  pub saved : Prompt

-- `mp_mresume_t`; the list of saves is its own, and NULL is the empty one.
pub record Mresume : Type 0 where
  pub refcount : ℤ
  pub resume_count : ℕ
  pub prompt : ℕ
  pub save : List Save
  pub tail_return_point : ℕ
  pub live : Bool

pub record Store : Type 0 where
  pub base : State
  pub mresumes : ℕ → Mresume

-- Run code on prompts.
abbrev pub lift : {A : Type 0} → Run A → (ℕ → Mresume) → Option (A × Store)
lift (done a b) ms = some (a, record { base = b; mresumes = ms })
lift fault ms = none
lift (fatal e) ms = none

abbrev pub set_mresume : Store → ℕ → Mresume → Store
set_mresume s r m = record s { mresumes = write s.mresumes r m }

-- `mp_resume_multi` of a once resumption of the prompt `p`; `r` is the new structure.
unfoldable pub resume_multi : (r p : ℕ) → Store → Store
resume_multi r p s = set_mresume s r (record {
  refcount = pos 1;
  resume_count = 0;
  prompt = p;
  save = [];
  tail_return_point = (s.base.prompts p).return_point;
  live = true;
})

-- `mp_mresume_dup`.
unfoldable pub mresume_dup : (r : ℕ) → Store → Store
mresume_dup r s =
    set_mresume s r (record (s.mresumes r) { refcount = (s.mresumes r).refcount +ℤ pos 1 })

-- The loop of `mp_mresume_drop` over the saves.
unfoldable pub drop_saves : (fuel : ℕ) → List Save → State → Run (Unit {0})
drop_saves fuel [] s = done tt s
drop_saves fuel (x ∷ xs) s = elim (prompt_drop_internal fuel x.prompt false s) [
  | done u s' ↦ drop_saves fuel xs s'
  | fault ↦ fault
  | fatal e ↦ fatal e
]

-- `mp_mresume_drop`.
unfoldable pub mresume_drop : (fuel r : ℕ) → Store → Option (Unit {0} × Store)
mresume_drop fuel r s =
    let m = s.mresumes r in
    let counted = set_mresume s r (record m { refcount = dec m.refcount }) in
    let freed = write counted.mresumes r (record (counted.mresumes r) { live = false }) in
    if leb_ℤ m.refcount (pos 1)
    then elim (drop_saves fuel m.save s.base) [
      | done u b ↦ lift (prompt_drop_internal fuel m.prompt false b) freed
      | fault ↦ none
      | fatal e ↦ none
    ]
    else some (tt, counted)

-- The loop of `mp_prompt_save`, from the prompt `p` with its stack pointer `sp` on.
unfoldable pub save_from : (fuel p sp : ℕ) → List Save → State → Run (List Save)
save_from zero p sp acc s = fault
save_from (suc fuel) p sp acc s = elim (prompt_dup p s) [
  | done q s' ↦
      let r = s'.prompts p in
      let acc' = record { prompt = p; sp = sp; saved = r } ∷ acc in
      let sp' = if r.parent == 0 then 0 else (s'.returns r.return_point).jmp.reg_sp in
      if r.parent == 0 then done acc' s' else save_from fuel r.parent sp' acc' s'
  | fault ↦ fault
  | fatal e ↦ fatal e
]

-- `mp_prompt_save`: the saves, the last one of the chain first.
unfoldable pub prompt_save : (fuel p : ℕ) → State → Run (List Save)
prompt_save fuel p s = elim (check (prompt_is_suspended p) s) [
  | done u t ↦
      let r = t.prompts p in save_from fuel r.top (t.resumes r.resume_point).jmp.reg_sp [] t
  | fault ↦ fault
  | fatal e ↦ fatal e
]

-- The loop of `mp_prompt_restore`, with its assertions in front.
unfoldable pub restore_from : List Save → State → Run (Unit {0})
restore_from [] s = done tt s
restore_from (x ∷ xs) s = elim (store x.prompt x.saved s) [
  | done u s' ↦ restore_from xs s'
  | fault ↦ fault
  | fatal e ↦ fatal e
]

unfoldable pub prompt_restore : (p : ℕ) → List Save → State → Run (Unit {0})
prompt_restore p [] s = fault
prompt_restore p (x ∷ xs) s = elim (check (prompt_is_suspended p) s) [
  | done u t ↦ if t.debug && not (p == x.prompt) then fault else restore_from (x ∷ xs) t
  | fault ↦ fault
  | fatal e ↦ fatal e
]

-- The first step of `mp_resume_get_prompt`: restore the saved chain, or save the chain if it is shared.
unfoldable pub make_pristine : (fuel r : ℕ) → Store → Option (Unit {0} × Store)
make_pristine fuel r s =
    let m = s.mresumes r in
    let shared = ltb_ℤ (pos 1) m.refcount || ltb_ℤ (pos 1) (s.base.prompts m.prompt).refcount in
    elim m.save [
      | x ∷ xs ↦ lift (prompt_restore m.prompt m.save s.base) s.mresumes
      | [] ↦
          if shared
          then elim (prompt_save fuel m.prompt s.base) [
            | done saves b ↦
                some (
                  tt,
                  record { base = b; mresumes = write s.mresumes r (record m { save = saves }) },
                )
            | fault ↦ none
            | fatal e ↦ none
          ]
          else some (tt, s)
    ]

-- `mp_resume_get_prompt`.
unfoldable pub get_prompt : (fuel r : ℕ) → Store → Option (ℕ × Store)
get_prompt fuel r s =
    let p = (s.mresumes r).prompt in
    elim (make_pristine fuel r s) [
      | none ↦ none
      | some (u, s') ↦ elim (lift (prompt_dup p s'.base) s'.mresumes) [
        | none ↦ none
        | some (q, s'') ↦ elim (mresume_drop fuel r s'') [ none ↦ none | some (w, t) ↦ some (p, t) ]
      ]
    ]

-- `mp_resume_should_unwind` of a multi-shot resumption.
unfoldable pub should_unwind : (r : ℕ) → Store → Bool
should_unwind r s = eq_ℤ (s.mresumes r).refcount (pos 1) && ((s.mresumes r).resume_count == 0)

-- `mp_mresume`, up to the jump.
unfoldable pub mresume : (fuel r arg ret : ℕ) → Store → Option (Jump × Store)
mresume fuel r arg ret s =
    let m = s.mresumes r in
    elim (get_prompt fuel r (set_mresume s r (record m { resume_count = m.resume_count + 1 }))) [
      | none ↦ none
      | some (p, t) ↦ lift (prompt_resume p arg ret t.base) t.mresumes
    ]

-- `mp_mresume_tail`, up to the jump.
unfoldable pub mresume_tail : (fuel r arg ret : ℕ) → Store → Option (Jump × Store)
mresume_tail fuel r arg ret s =
    let m = s.mresumes r in
    let counted = record m { tail_return_point = 0; resume_count = m.resume_count + 1 } in
    if m.tail_return_point == 0
    then mresume fuel r arg ret s
    else elim (get_prompt fuel r (set_mresume s r counted)) [
      | none ↦ none
      | some (p, t) ↦ lift (prompt_resume_tail p arg m.tail_return_point t.base) t.mresumes
    ]
