-- ===== src/Effect/Cpp/Release.antt =====
-- Operations that never resume, and resumptions that are released, of src/mpeff/mpeff.c built as C++:
-- the finally functions run, and the handler's function is left with the result.
use libmprompt.Base.{
  ℕ, ◌≡◌, refl, ap, ◌∙◌, ◌≢◌, true, false, some, none, List, [], ◌∷◌, arith, ◌==◌, if◌then◌else◌,
  write, map, has, Distinct, ==_refl, ne_of_has,
}
use mathlib.Core.Path.{ap₂}
use libmprompt.Effect.State.{State, op_never}
use libmprompt.Effect.Find.{mpe_find}
use libmprompt.Effect.Perform.{ResumeEnv, Outcome, op_unwind, relink}
use libmprompt.Effect.Cpp.{
  unwind, Code, Calls, returned, thrown, and_then, handle_around, catch_unwind, perform_at,
  perform_resumed, unwind_to, mpe_perform, raised, pure, with_unwind,
}
use libmprompt.Effect.Cpp.Unwind.{
  Layer, masking, protecting, handling, frame_at, frame_of, pushed, pushed_all, within, unwound,
  Misses, Releases, with_frame_left, within_thrown, pushed_all-other,
}

unwind-Misses :
    (h opfun arg : ℕ) (ls : List Layer)
    → has h (map frame_at ls) ≡ false
    → Misses (unwind h opfun arg) ls
unwind-Misses h opfun arg [] o = tt
unwind-Misses h opfun arg (masking f eff from ∷ ls) o =
    (tt, unwind-Misses h opfun arg ls (ground arith))
unwind-Misses h opfun arg (protecting f local fun ∷ ls) o =
    (tt, unwind-Misses h opfun arg ls (ground arith))
unwind-Misses h opfun arg (handling f prompt hdef local ∷ ls) o =
    (ground arith, unwind-Misses h opfun arg ls (ground arith))

catch_unwind-hits :
    {W : Type 0} (calls : Calls W) (h opfun arg : ℕ) (s : State) (w : W)
    → catch_unwind calls h (unwind h opfun arg) s w
      ≡ calls.opfun opfun none (s.frames h).local arg s w
unfolding catch_unwind
catch_unwind-hits calls h opfun arg s w = rw (catch_unwind, ==_refl h) refl

module _ {W : Type 0} (calls : Calls W) (rel : ℕ → ℕ → W → W) (releases : Releases calls rel)
    (h prompt hdef local : ℕ) (ls : List Layer) (s : State)
    (apart : Distinct (s.frame_top ∷ h ∷ map frame_at ls)) where
  -- The state in which the innermost code starts.
  inside : State
  inside = pushed_all ls (pushed (handling h prompt hdef local) s)

  -- An exception that is aimed at the handler.
  unwind_caught :
      (body : Code W ℕ) (t : State) (w w' : W) (opfun arg : ℕ)
      → body inside w ≡ thrown (unwind h opfun arg) t w'
      → t.frame_top ≡ inside.frame_top
      → ((x : ℕ) → has x (map frame_at ls) ≡ true → t.frames x ≡ inside.frames x)
      → handle_around calls h prompt hdef local (within calls ls body) s w
        ≡ calls.opfun opfun none
            (t.frames h).local
            arg
            (record t { frame_top = (t.frames h).parent })
            (unwound rel ls w')
  unfolding handle_around inside
  unwind_caught body t w w' opfun arg run top same =
      let l = handling h prompt hdef local in
      let inner =
        within_thrown calls rel releases ls body (pushed l s) t w w' (unwind h opfun arg) apart.1
          (unwind-Misses h opfun arg ls apart.1.0) run top same in
      let left =
        with_frame_left h (frame_of l s) (within calls ls body) s (record t { frame_top = h }) w
          (unwound rel ls w') (unwind h opfun arg) (ground arith) inner refl in
      rw (handle_around, left)
        (catch_unwind-hits calls h opfun arg (record t { frame_top = (t.frames h).parent })
          (unwound rel ls w'))

  inside-handler :
      ((inside.frames h).local ≡ local)
      × ((inside.frames h).parent ≡ s.frame_top)
      × ((inside.frames h).hdef ≡ hdef)
  unfolding inside
  inside-handler =
      let e = pushed_all-other ls (pushed (handling h prompt hdef local) s) h apart.1.0 in
      (
        ap (λ r. r.local) e ∙ rw (==_refl h),
        ap (λ r. r.parent) e ∙ rw (==_refl h),
        ap (λ r. r.hdef) e ∙ rw (==_refl h),
      )

pushed_all-hdefs : (ls : List Layer) (s : State) → (pushed_all ls s).hdefs ≡ s.hdefs
pushed_all-hdefs [] s = refl
pushed_all-hdefs (l ∷ ls) s = pushed_all-hdefs ls (pushed l s)

perform_never_run :
    {W : Type 0} (calls : Calls W) (fuel f eff idx arg h : ℕ) (s : State) (w : W)
    → mpe_find fuel eff s ≡ some h
    → h ≢ 0
    → ((s.hdefs (s.frames h).hdef).operations idx).opkind ≡ op_never
    → mpe_perform calls fuel f eff idx arg s w
      ≡ thrown (unwind h ((s.hdefs (s.frames h).hdef).operations idx).opfun arg) s w
unfolding mpe_perform perform_at unwind_to
perform_never_run calls fuel f eff idx arg h s w found ne never =
    let first : (h == 0) ≡ false = ground arith in
    rw (mpe_perform, found, first, perform_at, never) refl

-- A call of `mpe_perform` and what the code does with the result.
abbrev pub performing :
    {W : Type 0} → Calls W → (fuel f eff idx arg : ℕ) → (ℕ × Outcome → Code W ℕ) → Code W ℕ
performing calls fuel f eff idx arg k s w = and_then (mpe_perform calls fuel f eff idx arg s w) k

-- An operation that never resumes, performed inside of calls of `mpe_mask`, `mpe_finally` and
-- `mpe_handle`, runs the finally functions of these calls, each once and the innermost first. Its
-- function is then called without a resumption, with the handler's local state and the argument, when
-- the frames are those outside of the handler. The finally functions are taken to return, and to
-- leave the frames.
pub perform_never_lem :
    {W : Type 0} (calls : Calls W) (rel : ℕ → ℕ → W → W) (h prompt hdef local : ℕ) (ls : List Layer)
    (s : State) (fuel f eff idx arg fun : ℕ) (k : ℕ × Outcome → Code W ℕ) (w : W)
    → Releases calls rel
    → Distinct (s.frame_top ∷ h ∷ map frame_at ls)
    → h ≢ 0
    → ((s.hdefs hdef).operations idx).opkind ≡ op_never
    → ((s.hdefs hdef).operations idx).opfun ≡ fun
    → let i = pushed_all (handling h prompt hdef local ∷ ls) s in
      mpe_find fuel eff i ≡ some h
      → handle_around calls h prompt hdef local
          (within calls ls (performing calls fuel f eff idx arg k))
          s
          w
        ≡ calls.opfun fun none local arg (record i { frame_top = s.frame_top }) (unwound rel ls w)
unfolding inside
perform_never_lem calls rel h prompt hdef local ls s fuel f eff idx arg fun k w releases apart ne
      never fun_is found =
    let i = inside calls rel releases h prompt hdef local ls s apart in
    let kept = inside-handler calls rel releases h prompt hdef local ls s apart in
    let op_is : (i.hdefs (i.frames h).hdef).operations idx ≡ (s.hdefs hdef).operations idx =
      ap₂ (λ d n. (d n).operations idx)
        (pushed_all-hdefs ls (pushed (handling h prompt hdef local) s)) kept.2 in
    let run =
      perform_never_run calls fuel f eff idx arg h i w found ne
        (ap (λ o. o.opkind) op_is ∙ never) in
    let fun_same = ap (λ o. o.opfun) op_is ∙ fun_is in
    unwind_caught calls rel releases h prompt hdef local ls s apart
      (performing calls fuel f eff idx arg k) i w w fun arg
      (ap (λ r. and_then r k) run ∙ ap (λ n. thrown (unwind h n arg) i w) fun_same) refl
      (λ x m. refl)
    ∙ ap₂ (λ l p. calls.opfun fun none l arg (record i { frame_top = p }) (unwound rel ls w)) kept.0
        kept.1

-- The state in which a resumption has put its frames back on the resumer's.
abbrev relinked_at : (h top local : ℕ) → State → State
relinked_at h top local u =
    let frames = write u.frames h (record (u.frames h) { local = local }) in
    record u {
      frames = write frames h (record (frames h) { parent = u.frame_top });
      frame_top = top;
    }

relink_run :
    (h top : ℕ) (renv : ResumeEnv) (u : State)
    → u.frame_top ≢ h
    → relink h top renv u ≡ some (tt, relinked_at h top renv.local u)
relink_run h top renv u ne = ground arith

relinked_run :
    {W : Type 0} (h top : ℕ) (renv : ResumeEnv) (u : State) (w : W)
    → u.frame_top ≢ h
    → renv.unwind ≡ true
    → perform_resumed h top renv u w
      ≡ thrown (unwind h op_unwind renv.result) (relinked_at h top renv.local u) w
unfolding perform_resumed unwind_to
relinked_run h top renv u w ne un =
    ap
      (λ r.
        and_then (raised r w)
          (λ v. if renv.unwind then unwind_to h op_unwind renv.result else pure renv.result))
      (relink_run h top renv u ne)
    ∙ rw un refl

-- The release of a resumption that no code resumed (`renv` asks to unwind) runs the finally functions
-- of the calls between the operation and its handler, each once and the innermost first. The
-- handler then returns the value that the release gives to its resumer, in a state whose top frame is
-- that of the resumer. `body` yields in some state and is resumed in the state `u`, which has its frames
-- as they were; the finally functions are taken to return, and to leave the frames.
pub release_lem :
    {W : Type 0} (calls : Calls W) (rel : ℕ → ℕ → W → W) (h prompt hdef local : ℕ) (ls : List Layer)
    (s u : State) (renv : ResumeEnv) (body : Code W ℕ) (w w' : W)
    → Releases calls rel
    → Distinct (s.frame_top ∷ h ∷ map frame_at ls)
    → renv.unwind ≡ true
    → u.frame_top ≢ h
    → let i = pushed_all (handling h prompt hdef local ∷ ls) s in
      ((x : ℕ) → has x (map frame_at ls) ≡ true → u.frames x ≡ i.frames x)
      → body i w ≡ perform_resumed h i.frame_top renv u w'
      → (t : State) × (handle_around
            (with_unwind calls)
            h
            prompt
            hdef
            local
            (within (with_unwind calls) ls body)
            s
            w
          ≡ returned renv.result t (unwound rel ls w'))
        × (t.frame_top ≡ u.frame_top)
unfolding inside with_unwind
release_lem calls rel h prompt hdef local ls s u renv body w w' releases apart un ne kept resumed =
    let i = inside (with_unwind calls) rel releases h prompt hdef local ls s apart in
    let t = relinked_at h i.frame_top renv.local u in
    let same : (x : ℕ) → has x (map frame_at ls) ≡ true → t.frames x ≡ i.frames x =
      λ x m. let other = ne_of_has h x (map frame_at ls) m apart.1.0 in rw other (kept x m) in
    let out = record t { frame_top = (t.frames h).parent } in
    (
      out,
      unwind_caught (with_unwind calls) rel releases h prompt hdef local ls s apart body t w w'
          op_unwind renv.result (resumed ∙ relinked_run h i.frame_top renv u w' ne un) refl same,
      rw (==_refl h),
    )
