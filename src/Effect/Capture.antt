-- ===== src/Effect/Capture.antt =====
-- An operation that yields to its handler, and the resume: `mpe_perform_yield_to` of
-- src/mpeff/mpeff.c.
use libmprompt.Base.{
  ℕ, ◌≡◌, refl, ap, sym, ◌≢◌, true, false, some, List, [], ◌∷◌, ◌++◌, arith, ◌==◌, All, All-left,
  All-right, All-append, has, write, ne_of_has, ==_refl,
}
use mathlib.Core.Path.{subst}
use libmprompt.Base.Chain.{Chain, Chain-cut, Chain-join, Chain-agree}
use libmprompt.Effect.State.{State, ResumptionKind}
use libmprompt.Effect.Find.{parent_of}
use libmprompt.Effect.Perform.{ResumeEnv, value, yields, perform_yield_to, perform_resumed}
use libmprompt.Effect.Search.{IsStack}

-- The frames below the handler `h`.
abbrev pub yielded_frames : State → (h : ℕ) → State
yielded_frames s h = record s { frame_top = parent_of s h }

-- The state after the captured frames, from `top` to `h`, are put on the current ones.
abbrev pub relinked : State → (h top : ℕ) → ResumeEnv → State
relinked s h top renv =
    let m = write s.frames h (record (s.frames h) { local = renv.local }) in
    record s { frames = write m h (record (m h) { parent = s.frame_top }); frame_top = top }

yielded_frames-IsStack :
    (s : State) (h : ℕ) (xs ys : List ℕ)
    → IsStack s s.frame_top (xs ++ h ∷ ys)
    → IsStack (yielded_frames s h) (parent_of s h) ys
yielded_frames-IsStack s h xs ys v = record {
  chain = (Chain-cut (parent_of s) s.frame_top 0 h xs ys v.chain).1;
  each = (All-right (λ x. x ≢ 0) xs (h ∷ ys) v.each).1;
}

module _ (s : State) (h top : ℕ) (renv : ResumeEnv) (xs zs : List ℕ)
    (above : Chain (parent_of s) top xs h) (each : All (λ x. x ≢ 0) xs) (ne_null : h ≢ 0)
    (v : IsStack s s.frame_top zs) (out : has h xs ≡ false) (out' : has h zs ≡ false) where
  top_ne : (s.frame_top == h) ≡ false
  top_ne =
      elim zs as (λ ws. IsStack s s.frame_top ws → has h ws ≡ false → (s.frame_top == h) ≡ false) [
        | [] ↦ λ w o. ground (arith, w.chain)
        | z ∷ ws ↦ λ w o. ground (arith, w.chain)
      ]
        v out'

  relinked_run :
      renv.unwind ≡ false
      → perform_resumed h top renv s ≡ some (value renv.result, relinked s h top renv)
  unfolding perform_resumed
  relinked_run u = let ne = top_ne in ground arith

  relinked-parent :
      (ws : List ℕ)
      → has h ws ≡ false
      → (x : ℕ) → has x ws ≡ true
      → parent_of (relinked s h top renv) x ≡ parent_of s x
  relinked-parent ws o x i = let ne = ne_of_has h x ws i o in ground arith

  relinked-start : parent_of (relinked s h top renv) h ≡ s.frame_top
  relinked-start = ground (arith, ==_refl h)

  relinked-below :
      Chain (parent_of (relinked s h top renv)) (parent_of (relinked s h top renv) h) zs 0
  relinked-below =
      let u = relinked s h top renv in
      subst (λ a. Chain (parent_of u) a zs 0) (sym relinked-start)
        (Chain-agree (parent_of s) (parent_of u) s.frame_top 0 zs (relinked-parent zs out') v.chain)

  relinked-IsStack : IsStack (relinked s h top renv) top (xs ++ h ∷ zs)
  relinked-IsStack =
      let u = relinked s h top renv in
      record {
        chain =
            Chain-join (parent_of u) top 0 h xs zs
              (Chain-agree (parent_of s) (parent_of u) top h xs (relinked-parent xs out) above)
              relinked-below;
        each = All-append (λ x. x ≢ 0) xs (h ∷ zs) each (ne_null, v.each);
      }

-- An operation that yields unlinks the frames from its own up to its handler, and the frames below the
-- handler are the current ones. A later resume, from any other stack of frames on which the handler
-- does not stand, links the captured frames, which are as they were, on top of those, in their order;
-- the operation returns the resume's result, and the handler has its new state.
pub perform_resume_lem :
    (s s' : State) (kind : ResumptionKind) (h opfun arg : ℕ) (renv : ResumeEnv)
    → (xs ys zs : List ℕ) → IsStack s s.frame_top (xs ++ h ∷ ys)
    → ((x : ℕ) → has x (h ∷ xs) ≡ true → s'.frames x ≡ s.frames x)
    → IsStack s' s'.frame_top zs
    → has h xs ≡ false
    → has h zs ≡ false
    → renv.unwind ≡ false
    → let r = s.frames h in
      let u = relinked s' h s.frame_top renv in
      (perform_yield_to kind h opfun arg s
        ≡ some ((s.frame_top, yields kind r.prompt opfun r.local arg), yielded_frames s h))
      × IsStack (yielded_frames s h) r.parent ys
      × (perform_resumed h s.frame_top renv s' ≡ some (value renv.result, u))
      × IsStack u s.frame_top (xs ++ h ∷ zs)
      × ((u.frames h).local ≡ renv.local)
unfolding perform_yield_to
perform_resume_lem s s' kind h opfun arg renv xs ys zs v same w out out' plain =
    let cut = Chain-cut (parent_of s) s.frame_top 0 h xs ys v.chain in
    let above =
      Chain-agree (parent_of s) (parent_of s') s.frame_top h xs
        (λ x i. ap (λ r. r.parent) (same x (ground arith))) cut.0 in
    let each = All-left (λ x. x ≢ 0) xs (h ∷ ys) v.each in
    let ne = (All-right (λ x. x ≢ 0) xs (h ∷ ys) v.each).0 in
    (
      refl,
      yielded_frames-IsStack s h xs ys v,
      relinked_run s' h s.frame_top renv xs zs above each ne w out out' plain,
      relinked-IsStack s' h s.frame_top renv xs zs above each ne w out out',
      ground arith,
    )
