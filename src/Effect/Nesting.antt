-- ===== src/Effect/Nesting.antt =====
-- Which handler an operation reaches: the innermost one, the next one behind a mask, and one outside
-- of the handler whose operation runs in place.
use libmprompt.Base.{
  ℕ, zero, suc, ◌+◌, ◌-◌, ◌<◌, ◌≡◌, refl, ap, sym, ◌∙◌, ◌≢◌, some, List, [], ◌∷◌, arith, inl, inr,
  Option-cases, length, All,
}
use libmprompt.Base.Chain.{Chain}
use libmprompt.Effect.State.{State, frame_under, frame_mask}
use libmprompt.Effect.Find.{parent_of, skip_to, Step, result, next, find_step, find_from, mpe_find}
use libmprompt.Effect.Search.{
  Passes, find_from-pass, find_from-next, find_from-result, find_from-stuck,
}

-- The handler `h` of the effect `e` on the chain from `a`, behind frames that the search passes.
pub record Reaches (s : State) (e a h : ℕ) (xs : List ℕ) : Type 0 where
  pub chain : Chain (parent_of s) a xs h
  pub passes : All (Passes s e) xs
  pub ne_null : h ≢ 0
  pub handles : (s.frames h).effect ≡ e

find_from-reach :
    (s : State) (n e level a h : ℕ) (xs : List ℕ)
    → Reaches s e a h xs
    → length xs < n
    → find_from n s e level a ≡ find_from (n - length xs) s e level h
find_from-reach s n e level a h xs v l =
    let split : length xs + (n - length xs) ≡ n = omega arith in
    ap (λ k. find_from k s e level a) (sym split)
    ∙ find_from-pass s (n - length xs) e level a h xs v.chain v.passes

find_step-handler :
    (s : State) (n e h : ℕ)
    → h ≢ 0
    → (s.frames h).effect ≡ e
    → (find_step n s e 0 h ≡ some (result h))
      × (find_step n s e 1 h ≡ some (next 0 (parent_of s h)))
unfolding find_step
find_step-handler s n e h k i = ground arith

pub find_from-reached :
    (s : State) (n e a h : ℕ) (xs : List ℕ)
    → Reaches s e a h xs
    → length xs < n
    → find_from n s e 0 a ≡ some h
find_from-reached s n e a h xs v l =
    let left : suc (n - length xs - 1) ≡ n - length xs = omega arith in
    find_from-reach s n e 0 a h xs v l
    ∙ ap (λ k. find_from k s e 0 h) (sym left)
    ∙ find_from-result s (n - length xs - 1) e 0 h h
        (find_step-handler s (n - length xs - 1) e h v.ne_null v.handles).0

-- An operation reaches the innermost handler of its effect: frames of other effects, masks of other
-- effects and finally frames above that handler make no difference.
pub mpe_find-innermost :
    (s : State) (fuel e h : ℕ) (xs : List ℕ)
    → Reaches s e s.frame_top h xs
    → length xs < fuel
    → mpe_find fuel e s ≡ some h
unfolding mpe_find
mpe_find-innermost s fuel e h xs v l = find_from-reached s fuel e s.frame_top h xs v l

-- The top frame is a mask of an effect from level 0, and under it stand two handlers of the effect, with
-- no under frame and no other mask of the effect down to the second one: an operation of the effect
-- passes the first handler, and reaches the second. (The effect is not the tag of masks.)
pub mpe_find-masked :
    (s : State) (fuel e m h h' : ℕ) (xs ys : List ℕ)
    → s.frame_top ≡ m
    → m ≢ 0
    → e ≢ frame_mask
    → (s.frames m).effect ≡ frame_mask
    → (s.frames m).mask ≡ e
    → (s.frames m).from ≡ 0
    → Reaches s e (parent_of s m) h xs
    → Reaches s e (parent_of s h) h' ys
    → 2 + length xs + length ys < fuel
    → mpe_find fuel e s ≡ some h'
unfolding mpe_find
mpe_find-masked s fuel e m h h' xs ys t k ne i j o v w l =
    let n = fuel - 1 in
    let p = n - length xs - 1 in
    let first : suc n ≡ fuel = omega arith in
    let second : suc p ≡ n - length xs = omega arith in
    let mask_step : find_step n s e 0 m ≡ some (next 1 (parent_of s m)) =
      (unfold find_step in ground arith) in
    ap (λ a. find_from fuel s e 0 a) t
    ∙ ap (λ q. find_from q s e 0 m) (sym first)
    ∙ find_from-next s n e 0 m 1 (parent_of s m) mask_step
    ∙ find_from-reach s n e 1 (parent_of s m) h xs v (omega arith)
    ∙ ap (λ q. find_from q s e 1 h) (sym second)
    ∙ find_from-next s p e 1 h 0 (parent_of s h) (find_step-handler s p e h v.ne_null v.handles).1
    ∙ find_from-reached s p e (parent_of s h) h' ys w (omega arith)

-- The inner loop at an under frame of the effect `e` gets to the next handler of `e`.
pub skip_to-reach :
    (s : State) (n e f h : ℕ) (xs : List ℕ)
    → Reaches s e (parent_of s f) h xs
    → length xs < n
    → skip_to n s e f ≡ some h
unfolding skip_to
skip_to-reach s zero e f h xs v l = absurd (omega arith)
skip_to-reach s (suc n) e f h [] v l = ground (arith, v.chain, v.handles)
skip_to-reach s (suc n) e f h (x ∷ xs) v l =
    let at : parent_of s f ≡ x = v.chain.0 in
    let tail : Reaches s e (parent_of s x) h xs = record {
      chain = v.chain.1;
      passes = v.passes.1;
      ne_null = v.ne_null;
      handles = v.handles;
    } in
    ground (arith, v.passes.0, skip_to-reach s n e x h xs tail (omega arith))

-- The search reads the frames only.
skip_to-top :
    (s : State) (t n under f : ℕ)
    → skip_to n (record s { frame_top = t }) under f ≡ skip_to n s under f
unfolding skip_to
skip_to-top s t zero under f = refl
skip_to-top s t (suc n) under f = ground (arith, skip_to-top s t n under (parent_of s f))

find_step-top :
    (s : State) (t n e level f : ℕ)
    → find_step n (record s { frame_top = t }) e level f ≡ find_step n s e level f
unfolding find_step
find_step-top s t n e level f = ground (arith, skip_to-top s t n (s.frames f).under f)

find_from-top_after :
    (s : State) (t n e level f : ℕ) (r : Step)
    → find_step n s e level f ≡ some r
    → ((m g : ℕ) → find_from n (record s { frame_top = t }) e m g ≡ find_from n s e m g)
    → find_from (suc n) (record s { frame_top = t }) e level f ≡ find_from (suc n) s e level f
find_from-top_after s t n e level f (result h) k rest =
    find_from-result (record s { frame_top = t }) n e level f h (find_step-top s t n e level f ∙ k)
    ∙ sym (find_from-result s n e level f h k)
find_from-top_after s t n e level f (next m g) k rest =
    find_from-next (record s { frame_top = t }) n e level f m g (find_step-top s t n e level f ∙ k)
    ∙ rest m g
    ∙ sym (find_from-next s n e level f m g k)

find_from-top :
    (s : State) (t n e level f : ℕ)
    → find_from n (record s { frame_top = t }) e level f ≡ find_from n s e level f
find_from-top s t zero e level f = unfold find_from in refl
find_from-top s t (suc n) e level f = elim (Option-cases (find_step n s e level f)) [
  | inl k ↦
      find_from-stuck (record s { frame_top = t }) n e level f (find_step-top s t n e level f ∙ k)
      ∙ sym (find_from-stuck s n e level f k)
  | inr (r, k) ↦ find_from-top_after s t n e level f r k (λ m g. find_from-top s t n e m g)
]

-- Operations of any effect that run under an under frame are handled outside of the innermost handler
-- of the effect that the frame names.
pub mpe_find-under :
    (s : State) (n e e' h : ℕ) (xs : List ℕ)
    → s.frame_top ≢ 0
    → e' ≢ frame_under
    → (s.frames s.frame_top).effect ≡ frame_under
    → (s.frames s.frame_top).under ≡ e
    → Reaches s e (parent_of s s.frame_top) h xs
    → length xs < n
    → mpe_find (suc n) e' s ≡ mpe_find n e' (record s { frame_top = parent_of s h })
unfolding mpe_find
mpe_find-under s n e e' h xs k ne i j v l =
    find_from-next s n e' 0 s.frame_top 0 (parent_of s h) under_step
    ∙ sym (find_from-top s (parent_of s h) n e' 0 (parent_of s h))
  where
    under_step : find_step n s e' 0 s.frame_top ≡ some (next 0 (parent_of s h))
    under_step = unfold find_step in ground (arith, skip_to-reach s n e s.frame_top h xs v l)
