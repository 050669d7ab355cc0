-- ===== src/Gstack/Save.antt =====
-- Saving a stack and restoring it: `mp_gstack_save` and `mp_gsave_restore` of src/mprompt/gstack.c.
use libmprompt.Base.{
  ℕ, ◌+◌, ◌-◌, ◌≤◌, ◌<◌, ◌≡◌, ap, ◌∙◌, ◌⊎◌, inl, inr, Bool, some, arith, if◌then◌else◌,
}
use libmprompt.Os.{Os, mp_unpush}
use libmprompt.Gstack.{Gstack, Gsave, gstack_save, gsave_restore, copy}

-- The addresses of the part of a stack in use, when `sp` is its stack pointer.
abbrev pub InUse : Os → Gstack → (sp a : ℕ) → Type 0
InUse os g sp a =
    if os.stack_grows_down
    then (sp ≤ a) × (a < g.stack + g.stack_size)
    else (g.stack ≤ a) × (a < sp)

-- The addresses of the prompt structure.
abbrev pub InExtra : Gstack → ℕ → Type 0
InExtra g a = (g.extra ≤ a) × (a < g.extra + g.extra_size)

saved : Os → (ℕ → ℕ) → Gstack → ℕ → Gsave
saved os memory g sp = record {
  stack = if os.stack_grows_down then sp else g.stack;
  stack_size = mp_unpush os sp g.stack g.stack_size;
  extra = g.extra;
  extra_size = g.extra_size;
  bytes =
      copy (copy (λ i. 0) 0 memory g.extra g.extra_size) g.extra_size memory
        (if os.stack_grows_down then sp else g.stack) (mp_unpush os sp g.stack g.stack_size);
}

copy_in :
    (dst src : ℕ → ℕ) (to from size a : ℕ)
    → to ≤ a
    → a < to + size
    → copy dst to src from size a ≡ src (from + (a - to))
copy_in dst src to from size a h k = ground arith

copy_out :
    (dst src : ℕ → ℕ) (to from size a : ℕ)
    → (a < to) ⊎ (to + size ≤ a)
    → copy dst to src from size a ≡ dst a
copy_out dst src to from size a h = ground arith

module _ (os : Os) (memory later : ℕ → ℕ) (g : Gstack) (sp a : ℕ) (low : g.stack ≤ sp)
    (high : sp < g.stack + g.stack_size) where
  start : ℕ
  start = if os.stack_grows_down then sp else g.stack

  size : ℕ
  size = mp_unpush os sp g.stack g.stack_size

  -- The saved part of the stack is what is in use.
  in_use : InUse os g sp a → (start ≤ a) × (a < start + size)
  unfolding start size mp_unpush
  in_use h = ground arith

  on_stack : (g.stack ≤ start) × (start + size ≤ g.stack + g.stack_size)
  unfolding start size mp_unpush
  on_stack = ground arith

  extra_bytes : ℕ → ℕ
  extra_bytes = copy (λ i. 0) 0 memory g.extra g.extra_size

  restored_stack : InUse os g sp a → gsave_restore (saved os memory g sp) later a ≡ memory a
  unfolding gsave_restore start size saved mp_unpush extra_bytes
  restored_stack h =
      let i = in_use h in
      let e = g.extra_size in
      let back : start + (e + (a - start) - e) ≡ a = omega (arith, i) in
      let first = copy later g.extra (saved os memory g sp).bytes 0 e in
      copy_in first (saved os memory g sp).bytes start e size a i.0 i.1
      ∙ copy_in extra_bytes memory e start size (e + (a - start)) (omega arith) (omega (arith, i))
      ∙ ap memory back

  restored_extra :
      (g.extra + g.extra_size ≤ g.stack) ⊎ (g.stack + g.stack_size ≤ g.extra)
      → InExtra g a
      → gsave_restore (saved os memory g sp) later a ≡ memory a
  unfolding gsave_restore start size saved extra_bytes
  restored_extra apart h =
      let o = on_stack in
      let e = g.extra_size in
      let bytes = (saved os memory g sp).bytes in
      let first = copy later g.extra bytes 0 e in
      let back : g.extra + (0 + (a - g.extra) - 0) ≡ a = omega (arith, h) in
      copy_out first bytes start e size a (grind arith)
      ∙ copy_in later bytes g.extra 0 e a h.0 h.1
      ∙ copy_out extra_bytes memory e start size (0 + (a - g.extra)) (inl (omega (arith, h)))
      ∙ copy_in (λ i. 0) memory 0 g.extra e (0 + (a - g.extra)) (omega arith) (omega (arith, h))
      ∙ ap memory back

-- A stack that is saved at a stack pointer on it, and restored into any later memory: the part of the
-- stack in use and the prompt structure have the bytes that they had. The structure does not
-- stand on the stack.
pub gsave_restore-save :
    (debug : Bool) (os : Os) (memory later : ℕ → ℕ) (g : Gstack) (sp a : ℕ)
    → g.stack ≤ sp
    → sp < g.stack + g.stack_size
    → (g.extra + g.extra_size ≤ g.stack) ⊎ (g.stack + g.stack_size ≤ g.extra)
    → InUse os g sp a ⊎ InExtra g a
    → (gs : Gsave) × (gstack_save debug os memory g sp ≡ some gs)
      × (gsave_restore gs later a ≡ memory a)
unfolding gstack_save saved
gsave_restore-save debug os memory later g sp a low high apart inside = (
  saved os memory g sp,
  ground arith,
  elim inside [
    | inl h ↦ restored_stack os memory later g sp a low high h
    | inr h ↦ restored_extra os memory later g sp a low high apart h
  ],
)
