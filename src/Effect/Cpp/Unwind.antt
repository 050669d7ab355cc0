-- ===== src/Effect/Cpp/Unwind.antt =====
-- An exception through frames of src/mpeff/mpeff.c, built as C++.
use libmprompt.Base.{
  ℕ, ◌≡◌, refl, ap, ◌∙◌, ◌≢◌, true, false, List, [], ◌∷◌, arith, ◌==◌, write, map, has, Distinct,
  ==_refl,
}
use mathlib.Core.Path.{ap₂}
use libmprompt.Effect.State.{State, Frame, frame_mask, frame_finally}
use libmprompt.Effect.Cpp.{
  Exn, unwind, other, Code, Calls, returned, thrown, leave_frame, with_frame, mask_around,
  finally_around, handle_around, catch_unwind, release, and_then, throw,
}

-- What the code is in: a call of `mpe_mask`, of `mpe_finally`, or of `mpe_handle`.
pub data Layer : Type 0 where
  masking : (f eff from : ℕ) → Layer
  protecting : (f local fun : ℕ) → Layer
  handling : (f prompt hdef local : ℕ) → Layer

-- Where its frame stands.
abbrev pub frame_at : Layer → ℕ
frame_at (masking f eff from) = f
frame_at (protecting f local fun) = f
frame_at (handling f prompt hdef local) = f

-- The fields of its frame.
abbrev pub frame_of : Layer → State → Frame
frame_of (masking f eff from) s = record (s.frames f) {
  effect = frame_mask;
  mask = eff;
  from = from;
}
frame_of (protecting f local fun) s = record (s.frames f) {
  effect = frame_finally;
  fun = fun;
  local = local;
}
frame_of (handling f prompt hdef local) s = record (s.frames f) {
  prompt = prompt;
  hdef = hdef;
  local = local;
  effect = (s.hdefs hdef).effect;
}

-- The state in which the code of a call starts.
abbrev pub pushed : Layer → State → State
pushed l s = record s {
  frames = write s.frames (frame_at l) (record (frame_of l s) { parent = s.frame_top });
  frame_top = frame_at l;
}

abbrev pub around : {W : Type 0} → Calls W → Layer → Code W ℕ → Code W ℕ
around calls (masking f eff from) body = mask_around f eff from body
around calls (protecting f local fun) body = finally_around calls f local fun body
around calls (handling f prompt hdef local) body = handle_around calls f prompt hdef local body

-- Code in calls of which the first is the outermost.
abbrev pub within : {W : Type 0} → Calls W → List Layer → Code W ℕ → Code W ℕ
within calls [] body = body
within calls (l ∷ ls) body = around calls l (within calls ls body)

abbrev pub pushed_all : List Layer → State → State
pushed_all [] s = s
pushed_all (l ∷ ls) s = pushed_all ls (pushed l s)

-- What the finally functions of the calls do to the program, the innermost one first.
abbrev pub after : {W : Type 0} → (ℕ → ℕ → W → W) → Layer → W → W
after rel (masking f eff from) w = w
after rel (protecting f local fun) w = rel fun local w
after rel (handling f prompt hdef local) w = w

abbrev pub unwound : {W : Type 0} → (ℕ → ℕ → W → W) → List Layer → W → W
unwound rel [] w = w
unwound rel (l ∷ ls) w = after rel l (unwound rel ls w)

-- The exception is not aimed at the handler at `f`, or at that of a call.
abbrev pub MissesHandler : Exn → (f : ℕ) → Type 0
MissesHandler (unwind target opfun arg) f = target ≢ f
MissesHandler (other n) f = Unit {0}

abbrev pub MissesAt : Exn → Layer → Type 0
MissesAt e (masking f eff from) = Unit {0}
MissesAt e (protecting f local fun) = Unit {0}
MissesAt e (handling f prompt hdef local) = MissesHandler e f

abbrev pub Misses : Exn → List Layer → Type 0
Misses e [] = Unit {0}
Misses e (l ∷ ls) = MissesAt e l × Misses e ls

pub pushed_all-other :
    (ls : List Layer) (s : State) (x : ℕ)
    → has x (map frame_at ls) ≡ false
    → (pushed_all ls s).frames x ≡ s.frames x
pushed_all-other [] s x o = refl
pushed_all-other (l ∷ ls) s x o = pushed_all-other ls (pushed l s) x (ground arith) ∙ ground arith

pub with_frame_left :
    {W A : Type 0} (f : ℕ) (r : Frame) (body : Code W A) (s t : State) (w w' : W) (e : Exn)
    → s.frame_top ≢ f
    → body
        (record s { frames = write s.frames f (record r { parent = s.frame_top }); frame_top = f })
        w
      ≡ thrown e t w'
    → t.frame_top ≡ f
    → with_frame f r body s w ≡ thrown e (record t { frame_top = (t.frames f).parent }) w'
unfolding with_frame leave_frame
with_frame_left f r body s t w w' e ne run top =
    let first : (s.frame_top == f) ≡ false = ground arith in
    let last : (t.frame_top == f) ≡ true = ground arith in
    rw (with_frame, first, run, leave_frame, last) (ground arith)

pub with_frame_thrown :
    {W A : Type 0} (f : ℕ) (r : Frame) (body : Code W A) (s t : State) (w w' : W) (e : Exn)
    → s.frame_top ≢ f
    → body
        (record s { frames = write s.frames f (record r { parent = s.frame_top }); frame_top = f })
        w
      ≡ thrown e t w'
    → t.frame_top ≡ f
    → (t.frames f).parent ≡ s.frame_top
    → with_frame f r body s w ≡ thrown e (record t { frame_top = s.frame_top }) w'
with_frame_thrown f r body s t w w' e ne run top parent =
    with_frame_left f r body s t w w' e ne run top
    ∙ ap (λ k. thrown e (record t { frame_top = k }) w') parent

catch_unwind-misses :
    {W : Type 0} (calls : Calls W) (f : ℕ) (e : Exn) (s : State) (w : W)
    → MissesHandler e f
    → catch_unwind calls f e s w ≡ thrown e s w
unfolding catch_unwind
catch_unwind-misses calls f (unwind target opfun arg) s w ne =
    let first : (target == f) ≡ false = ground arith in rw (catch_unwind, first) refl
catch_unwind-misses calls f (other n) s w ne = refl

-- The finally functions return, and change only the program's own state.
abbrev pub Releases : {W : Type 0} → Calls W → (ℕ → ℕ → W → W) → Type 0
Releases {W} calls rel =
    (fun local : ℕ) (s : State) (w : W)
    → calls.releasefun fun local s w ≡ returned tt s (rel fun local w)

module _ {W : Type 0} (calls : Calls W) (rel : ℕ → ℕ → W → W) (releases : Releases calls rel) where
  pub around_thrown :
      (l : Layer) (body : Code W ℕ) (s t : State) (w w' : W) (e : Exn)
      → s.frame_top ≢ frame_at l
      → MissesAt e l
      → body (pushed l s) w ≡ thrown e t w'
      → t.frame_top ≡ frame_at l
      → t.frames (frame_at l) ≡ (pushed l s).frames (frame_at l)
      → around calls l body s w ≡ thrown e (record t { frame_top = s.frame_top }) (after rel l w')
  unfolding mask_around finally_around handle_around
  around_thrown (masking f eff from) body s t w w' e ne miss run top same =
      with_frame_thrown f (frame_of (masking f eff from) s) body s t w w' e ne run top
        (ap (λ r. r.parent) same ∙ rw (==_refl f))
  around_thrown (protecting f local fun) body s t w w' e ne miss run top same =
      let l = protecting f local fun in
      let left =
        with_frame_thrown f (frame_of l s) body s t w w' e ne run top
          (ap (λ r. r.parent) same ∙ rw (==_refl f)) in
      let fun_same : (t.frames f).fun ≡ fun = ap (λ r. r.fun) same ∙ rw (==_refl f) in
      let local_same : (t.frames f).local ≡ local = ap (λ r. r.local) same ∙ rw (==_refl f) in
      let u = record t { frame_top = s.frame_top } in
      let ran : release calls f u w' ≡ returned tt u (rel fun local w') =
        releases (t.frames f).fun (t.frames f).local u w'
        ∙ ap₂ (λ a b. returned tt u (rel a b w')) fun_same local_same in
      rw (finally_around, left) (ap (λ r. and_then r (λ v. throw e)) ran)
  around_thrown (handling f prompt hdef local) body s t w w' e ne miss run top same =
      let l = handling f prompt hdef local in
      let left =
        with_frame_thrown f (frame_of l s) body s t w w' e ne run top
          (ap (λ r. r.parent) same ∙ rw (==_refl f)) in
      rw (handle_around, left)
        (catch_unwind-misses calls f e (record t { frame_top = s.frame_top }) w' miss)

  -- An exception that no handler in between catches leaves all the calls.
  pub within_thrown :
      (ls : List Layer) (body : Code W ℕ) (s t : State) (w w' : W) (e : Exn)
      → Distinct (s.frame_top ∷ map frame_at ls)
      → Misses e ls
      → body (pushed_all ls s) w ≡ thrown e t w'
      → t.frame_top ≡ (pushed_all ls s).frame_top
      → ((x : ℕ) → has x (map frame_at ls) ≡ true → t.frames x ≡ (pushed_all ls s).frames x)
      → within calls ls body s w
        ≡ thrown e (record t { frame_top = s.frame_top }) (unwound rel ls w')
  within_thrown [] body s t w w' e d miss run top same =
      run ∙ ap (λ k. thrown e (record t { frame_top = k }) w') top
  within_thrown (l ∷ ls) body s t w w' e d miss run top same =
      let inner =
        within_thrown ls body (pushed l s) t w w' e d.1 miss.1 run top
          (λ x i. same x (ground arith)) in
      let kept =
        same (frame_at l) (ground (arith, ==_refl (frame_at l)))
        ∙ pushed_all-other ls (pushed l s) (frame_at l) d.1.0 in
      around_thrown l (within calls ls body) s (record t { frame_top = frame_at l }) w
        (unwound rel ls w') e (ground arith) miss.0 inner refl kept
