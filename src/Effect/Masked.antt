-- ===== src/Effect/Masked.antt =====
-- A tail-resumptive operation whose handler stands behind a mask: its under frame names the effect
-- only, and `mpe_find` of src/mpeff/mpeff.c skips to the first frame of the effect.
use libmprompt.Base.{
  ℕ, suc, ◌+◌, ◌-◌, ◌<◌, ◌≡◌, refl, ap, sym, ◌∙◌, ◌≢◌, true, false, some, List, ◌∷◌, ◌++◌, arith,
  length, has, has-append, ne_of_has, ==_refl,
}
use mathlib.Core.Path.{subst}
use libmprompt.Effect.State.{State, frame_under, frame_mask}
use libmprompt.Effect.Find.{parent_of, skip_to, next, find_step, find_from, mpe_find}
use libmprompt.Effect.Search.{find_from-next}
use libmprompt.Effect.Nesting.{Reaches, skip_to-reach, find_from-reached, mpe_find-masked}
use libmprompt.Effect.Tail.{under_state, Reaches-frame}

-- The search from the under frame `f`, on the mask frame `m`.
under_mask :
    (s : State) (n e f m h h' : ℕ) (xs ys : List ℕ)
    → f ≢ 0
    → (s.frames f).effect ≡ frame_under
    → (s.frames f).under ≡ e
    → parent_of s f ≡ m
    → m ≢ 0
    → e ≢ frame_mask
    → e ≢ frame_under
    → (s.frames m).effect ≡ frame_mask
    → Reaches s e (parent_of s m) h xs
    → Reaches s e (parent_of s h) h' ys
    → 2 + length xs + length ys < n
    → find_from n s e 0 f ≡ some h'
under_mask s n e f m h h' xs ys k u w p ne i j mask v v' l =
    let q = n - 1 in
    let first : suc q ≡ n = omega arith in
    let second : suc (q - 1) ≡ q = omega arith in
    let skip : skip_to q s e f ≡ some h =
      ap (λ z. skip_to z s e f) (sym second)
      ∙ (unfold skip_to in ground (arith, skip_to-reach s (q - 1) e m h xs v (omega arith))) in
    let step : find_step q s e 0 f ≡ some (next 0 (parent_of s h)) =
      (unfold find_step in ground (arith, v.ne_null)) in
    ap (λ z. find_from z s e 0 f) (sym first)
    ∙ find_from-next s q e 0 f 0 (parent_of s h) step
    ∙ find_from-reached s q e (parent_of s h) h' ys v' (omega arith)

-- The top frame is a mask of an effect from level 0, and under it stand two handlers of the effect, with
-- no under frame and no other mask of the effect down to the second one: an operation of the effect
-- reaches the second handler. In the state in which a tail-resumptive clause of that handler starts, an
-- operation of the same effect reaches the same handler again, and not one outside of it. (The clause's
-- under frame is a new one, and the effect is none of the special tags.)
pub mpe_find-masked_again :
    (s : State) (fuel e f m h h' : ℕ) (xs ys : List ℕ)
    → s.frame_top ≡ m
    → m ≢ 0
    → e ≢ frame_mask
    → e ≢ frame_under
    → (s.frames m).effect ≡ frame_mask
    → (s.frames m).mask ≡ e
    → (s.frames m).from ≡ 0
    → Reaches s e (parent_of s m) h xs
    → Reaches s e (parent_of s h) h' ys
    → f ≢ 0
    → has f (m ∷ h ∷ h' ∷ xs ++ ys) ≡ false
    → 2 + length xs + length ys < fuel
    → (mpe_find fuel e s ≡ some h') × (mpe_find fuel e (under_state s f h') ≡ some h')
mpe_find-masked_again s fuel e f m h h' xs ys t k ne nu i j o v w nf fresh l = (
  mpe_find-masked s fuel e m h h' xs ys t k ne i j o v w l,
  (unfold mpe_find in
      under_mask u fuel e f m h h' xs ys nf (rw (==_refl f) refl) (rw (==_refl f) w.handles)
        (rw (parent_of, ==_refl f) t) k ne nu
        (ap (λ r. r.effect) (same m (ground (arith, ==_refl m))) ∙ i) upper lower l),
)
  where
    u : State
    u = under_state s f h'

    same : (x : ℕ) → has x (m ∷ h ∷ h' ∷ xs ++ ys) ≡ true → u.frames x ≡ s.frames x
    same x a = rw (ne_of_has f x (m ∷ h ∷ h' ∷ xs ++ ys) a fresh) refl

    upper : Reaches u e (parent_of u m) h xs
    upper =
        subst (λ a. Reaches u e a h xs)
          (sym (ap (λ r. r.parent) (same m (ground (arith, ==_refl m)))))
          (Reaches-frame s u e (parent_of s m) h xs
            (λ x a. same x (ground (arith, has-append x xs ys))) v)

    lower : Reaches u e (parent_of u h) h' ys
    lower =
        subst (λ a. Reaches u e a h' ys)
          (sym (ap (λ r. r.parent) (same h (ground (arith, ==_refl h)))))
          (Reaches-frame s u e (parent_of s h) h' ys
            (λ x a. same x (ground (arith, has-append x xs ys))) w)
