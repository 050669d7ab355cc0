-- ===== src/Effect/Find.antt =====
-- `mpe_find` of src/mpeff/mpeff.c: the search for the handler of an operation.
use libmprompt.Base.{
  ℕ, zero, suc, ◌+◌, ◌-◌, ◌&&◌, ◌||◌, Option, none, some, ◌==◌, leb, if◌then◌else◌,
}
use libmprompt.Effect.State.{State, frame_under, frame_mask}

abbrev pub parent_of : State → ℕ → ℕ
parent_of s f = (s.frames f).parent

-- The inner loop, from the under frame `f`: the next frame of the effect `under`, or NULL.
unfoldable pub skip_to : (fuel : ℕ) → State → (under f : ℕ) → Option ℕ
skip_to zero s under f = none
skip_to (suc fuel) s under f =
    let rest = skip_to fuel s under (parent_of s f) in
    if parent_of s f == 0 || (s.frames (parent_of s f)).effect == under
    then some (parent_of s f)
    else rest

-- What an iteration does: it has a result, or goes on at a frame with a mask level.
pub data Step : Type 0 where
  result : ℕ → Step
  next : (level f : ℕ) → Step

-- One iteration of the loop, for an operation of the effect `opeff`.
unfoldable pub find_step : (fuel : ℕ) → State → (opeff level f : ℕ) → Option Step
unfolding skip_to
find_step fuel s opeff level f =
    let r = s.frames f in
    if f == 0
    then some (result 0)
    else if r.effect == opeff
    then (if level == 0 then some (result f) else some (next (level - 1) r.parent))
    else if r.effect == frame_under
    then elim (skip_to fuel s r.under f) [
      | none ↦ none
      | some g ↦ if g == 0 then some (result 0) else some (next level (parent_of s g))
    ]
    else if r.effect == frame_mask && (r.mask == opeff && leb r.from level)
    then some (next (level + 1) r.parent)
    else some (next level r.parent)

-- The loop; the fuel bounds the number of frames.
unfoldable pub find_from : (fuel : ℕ) → State → (opeff level f : ℕ) → Option ℕ
unfolding find_step
find_from zero s opeff level f = none
find_from (suc fuel) s opeff level f = elim (find_step fuel s opeff level f) [
  | none ↦ none
  | some (result h) ↦ some h
  | some (next level' f') ↦ find_from fuel s opeff level' f'
]

-- `mpe_find`: the handler frame, or NULL.
unfoldable pub mpe_find : (fuel : ℕ) → (opeff : ℕ) → State → Option ℕ
unfolding find_from
mpe_find fuel opeff s = find_from fuel s opeff 0 s.frame_top
