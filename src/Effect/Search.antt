-- ===== src/Effect/Search.antt =====
-- What `mpe_find` finds.
use libmprompt.Base.{
  ℕ, zero, suc, ◌+◌, ◌-◌, ◌<◌, ◌≤◌, ◌≡◌, refl, ◌∙◌, ◌≢◌, ◌⊎◌, inl, inr, true, false, ◌&&◌, none,
  some, List, [], ◌∷◌, arith, ◌==◌, leb, length, All, has, Bool-cases,
}
use libmprompt.Base.Chain.{Chain}
use libmprompt.Effect.State.{State, frame_under, frame_mask}
use libmprompt.Effect.Find.{parent_of, skip_to, Step, result, next, find_step, find_from, mpe_find}

-- The frames from `a` on are `xs`, the innermost first.
pub record IsStack (s : State) (a : ℕ) (xs : List ℕ) : Type 0 where
  pub chain : Chain (parent_of s) a xs 0
  pub each : All (λ x. x ≢ 0) xs

-- A frame that the search for `e` passes without any effect.
abbrev pub Passes : State → (e x : ℕ) → Type 0
Passes s e x =
    let r = s.frames x in
    (x ≢ 0)
    × ((r.effect == e) ≡ false)
    × ((r.effect == frame_under) ≡ false)
    × ((r.effect == frame_mask && r.mask == e) ≡ false)

find_step-pass :
    (s : State) (n e level x : ℕ)
    → Passes s e x
    → find_step n s e level x ≡ some (next level (parent_of s x))
unfolding find_step
find_step-pass s n e level x h = ground arith

pub find_from-next :
    (s : State) (n e level x level' f : ℕ)
    → find_step n s e level x ≡ some (next level' f)
    → find_from (suc n) s e level x ≡ find_from n s e level' f
unfolding find_from
find_from-next s n e level x level' f h = rw (h, find_from) refl

pub find_from-stuck :
    (s : State) (n e level x : ℕ)
    → find_step n s e level x ≡ none
    → find_from (suc n) s e level x ≡ none
unfolding find_from
find_from-stuck s n e level x g = rw (g, find_from) refl

pub find_from-result :
    (s : State) (n e level x h : ℕ)
    → find_step n s e level x ≡ some (result h)
    → find_from (suc n) s e level x ≡ some h
unfolding find_from
find_from-result s n e level x h g = rw (g, find_from) refl

pub find_from-pass :
    (s : State) (n e level a b : ℕ) (xs : List ℕ)
    → Chain (parent_of s) a xs b
    → All (Passes s e) xs
    → find_from (length xs + n) s e level a ≡ find_from n s e level b
find_from-pass s n e level a b [] c h =
    let zero_left : 0 + n ≡ n = omega arith in rw (zero_left, c) refl
find_from-pass s n e level a b (x ∷ xs) c h =
    let shift : length (x ∷ xs) + n ≡ suc (length xs + n) = omega arith in
    rw (shift, c.0)
      (find_from-next s (length xs + n) e level x level (parent_of s x)
          (find_step-pass s (length xs + n) e level x h.0)
        ∙ find_from-pass s n e level (parent_of s x) b xs c.1 h.1)

-- A smaller part of the stack `xs` starts at `g`.
abbrev Below : State → List ℕ → ℕ → Type 0
Below s xs g =
    (ys : List ℕ) × IsStack s g ys
    × (length ys < length xs)
    × ((z : ℕ) → has z ys ≡ true → has z xs ≡ true)

Below-more : (s : State) (x : ℕ) (xs : List ℕ) (g : ℕ) → Below s xs g → Below s (x ∷ xs) g
Below-more s x xs g (ys, v, l, h) = (ys, v, omega (arith, l), λ z k. ground (arith, h z k))

tail-IsStack :
    (s : State) (a x : ℕ) (xs : List ℕ) → IsStack s a (x ∷ xs) → IsStack s (parent_of s x) xs
tail-IsStack s a x xs v = record { chain = v.chain.1; each = v.each.1 }

tail-Below :
    (s : State) (a x : ℕ) (xs : List ℕ) → IsStack s a (x ∷ xs) → Below s (x ∷ xs) (parent_of s x)
tail-Below s a x xs v = (xs, tail-IsStack s a x xs v, omega arith, λ z k. ground arith)

skip_to-ends :
    (s : State) (fuel under f : ℕ) (xs : List ℕ)
    → IsStack s (parent_of s f) xs
    → length xs < fuel
    → (g : ℕ) × (skip_to fuel s under f ≡ some g)
      × ((g ≡ 0) ⊎ ((g ≢ 0) × Below s xs (parent_of s g)))
unfolding skip_to
skip_to-ends s zero under f xs v l = absurd (omega arith)
skip_to-ends s (suc fuel) under f [] v l = (0, ground (arith, v.chain), inl refl)
skip_to-ends s (suc fuel) under f (x ∷ xs) v l =
    let at : parent_of s f ≡ x = v.chain.0 in
    let (g, run, good) = skip_to-ends s fuel under x xs (tail-IsStack s _ x xs v) (omega arith) in
    elim (Bool-cases ((s.frames x).effect == under)) [
      | inl e ↦ (x, ground arith, inr (v.each.0, tail-Below s _ x xs v))
      | inr e ↦ (
        g,
        ground arith,
        elim good [ inl z ↦ inl z | inr (z, b) ↦ inr (z, Below-more s x xs (parent_of s g) b) ],
      )
    ]

-- A step on the stack `xs` ends at NULL or at a handler frame of `e`, or goes on below.
abbrev StepFits : State → (e : ℕ) → List ℕ → Step → Type 0
StepFits s e xs (result h) = (h ≡ 0) ⊎ ((has h xs ≡ true) × ((s.frames h).effect ≡ e))
StepFits s e xs (next level g) = Below s xs g

find_step-ends :
    (s : State) (fuel e level f : ℕ) (xs : List ℕ)
    → IsStack s f xs
    → length xs ≤ fuel
    → (r : Step) × (find_step fuel s e level f ≡ some r) × StepFits s e xs r
unfolding find_step
find_step-ends s fuel e level f [] v l = (result 0, ground (arith, v.chain), inl refl)
find_step-ends s fuel e level f (x ∷ xs) v l =
    let at : f ≡ x = v.chain.0 in
    let below = tail-Below s f x xs v in
    let r = s.frames x in
    let (g, run, good) = skip_to-ends s fuel r.under x xs (tail-IsStack s f x xs v) (omega arith) in
    elim (Bool-cases (r.effect == e)) [
      | inl y ↦ elim (Bool-cases (level == 0)) [
        | inl z ↦ (result x, ground arith, inr (ground arith, ground arith))
        | inr z ↦ (next (level - 1) (parent_of s x), ground arith, below)
      ]
      | inr y ↦ elim (Bool-cases (r.effect == frame_under)) [
        | inl z ↦ elim good [
          | inl w ↦ (result 0, ground arith, inl refl)
          | inr (w, b) ↦
              (next level (parent_of s g), ground arith, Below-more s x xs (parent_of s g) b)
        ]
        | inr z ↦ elim (Bool-cases (r.effect == frame_mask && (r.mask == e && leb r.from level))) [
          | inl w ↦ (next (level + 1) (parent_of s x), ground arith, below)
          | inr w ↦ (next level (parent_of s x), ground arith, below)
        ]
      ]
    ]

-- What the loop finds on the stack `xs`.
abbrev Found : State → (fuel e level f : ℕ) → List ℕ → Type 0
Found s fuel e level f xs =
    (h : ℕ) × (find_from fuel s e level f ≡ some h)
    × ((h ≡ 0) ⊎ ((has h xs ≡ true) × ((s.frames h).effect ≡ e)))

find_from-after :
    (s : State) (fuel e level f : ℕ) (xs : List ℕ) (r : Step)
    → find_step fuel s e level f ≡ some r
    → StepFits s e xs r
    → ((m g : ℕ) (ys : List ℕ) → IsStack s g ys → length ys < length xs → Found s fuel e m g ys)
    → Found s (suc fuel) e level f xs
find_from-after s fuel e level f xs (result h) run good rest =
    (h, find_from-result s fuel e level f h run, good)
find_from-after s fuel e level f xs (next m g) run (ys, w, k, sub) rest =
    let (h, run', good) = rest m g ys w k in
    (
      h,
      find_from-next s fuel e level f m g run ∙ run',
      elim good [ inl z ↦ inl z | inr (z, same) ↦ inr (sub h z, same) ],
    )

find_from-ends :
    (s : State) (fuel e level f : ℕ) (xs : List ℕ)
    → IsStack s f xs
    → length xs < fuel
    → Found s fuel e level f xs
find_from-ends s zero e level f xs v l = absurd (omega arith)
find_from-ends s (suc fuel) e level f xs v l =
    let (r, run, good) = find_step-ends s fuel e level f xs v (omega arith) in
    find_from-after s fuel e level f xs r run good
      (λ m g ys w k. find_from-ends s fuel e m g ys w (omega arith))

-- The search for the handler of an operation ends, if the fuel is above the number of frames, and
-- gives NULL or a frame of the current stack with the effect of the operation.
pub mpe_find-ends :
    (s : State) (fuel e : ℕ) (xs : List ℕ)
    → IsStack s s.frame_top xs
    → length xs < fuel
    → (h : ℕ) × (mpe_find fuel e s ≡ some h)
      × ((h ≡ 0) ⊎ ((has h xs ≡ true) × ((s.frames h).effect ≡ e)))
unfolding mpe_find
mpe_find-ends s fuel e xs v l = find_from-ends s fuel e 0 s.frame_top xs v l
