-- ===== src/Effect/Tags.antt =====
-- The names of effects and operations: the macros MPE_DEFINE_EFFECT0 to MPE_DEFINE_EFFECT7 of
-- include/mpeff.h, and the functions that read the names, of src/mpeff/mpeff.c.
use mathlib.Core.List.{append_assoc}
use libmprompt.Base.{
  ℕ, zero, suc, ◌+◌, ◌≡◌, refl, sym, ap, ◌∙◌, Option, none, some, List, [], ◌∷◌, ◌++◌, arith, map,
  length, length-append,
}
use mathlib.Core.Path.{ap₂}

-- A text as its characters.
abbrev pub Text : Type 0
Text = List ℕ

-- The elements of an array of names; NULL is none, and behind the end there is no element.
abbrev pub element : List (Option Text) → (i : ℕ) → Option (Option Text)
element [] i = none
element (x ∷ xs) zero = some x
element (x ∷ xs) (suc i) = element xs i

-- `mpe_optag_s`, with the array that its effect stands for.
pub record Optag : Type 0 where
  pub effect : List (Option Text)
  pub opidx : ℕ

-- The array of names that the macro defines: the effect's, each operation's as `effect/op`, and NULL.
unfoldable pub effect_names : (effect : Text) → (ops : List Text) → List (Option Text)
effect_names effect ops = some effect ∷ (map (λ op. some (effect ++ 47 ∷ op)) ops ++ none ∷ [])

-- The tags that the macro defines, one for each operation, numbered in order.
abbrev pub tags_from : List (Option Text) → (i : ℕ) → (ops : List Text) → List Optag
tags_from names i [] = []
tags_from names i (op ∷ ops) = record { effect = names; opidx = i } ∷ tags_from names (i + 1) ops

unfoldable pub optags : (effect : Text) → (ops : List Text) → List Optag
unfolding effect_names
optags effect ops = tags_from (effect_names effect ops) 0 ops

-- `mpe_effect_name` and `mpe_optag_name`, of NULL or an array or a tag. No result is an access behind
-- the end of the array.
unfoldable pub effect_name : (null : Text) → Option (List (Option Text)) → Option (Option Text)
effect_name null none = some (some null)
effect_name null (some names) = element names 0

unfoldable pub optag_name : (null : Text) → Option Optag → Option (Option Text)
optag_name null none = some (some null)
optag_name null (some tag) = element tag.effect (tag.opidx + 1)

-- The names that the tags have.
abbrev pub tag_names : (null : Text) → List Optag → List (Option (Option Text))
tag_names null tags = map (λ tag. optag_name null (some tag)) tags

element-append :
    (front rest : List (Option Text)) (x : Option Text)
    → element (front ++ x ∷ rest) (length front) ≡ some x
element-append [] rest x = refl
element-append (y ∷ front) rest x = element-append front rest x

element-map :
    (f : Text → Option Text) (ops : List Text)
    → element (map f ops ++ none ∷ []) (length ops) ≡ some none
element-map f [] = refl
element-map f (op ∷ ops) = element-map f ops

-- The tags of the operations behind the names `front`.
tag_names-from :
    (null effect : Text) (front : List (Option Text)) (i : ℕ) (ops : List Text)
    → length front ≡ i + 1
    → let named = λ (op : Text). some (effect ++ 47 ∷ op) in
      tag_names null (tags_from (front ++ (map named ops ++ none ∷ [])) i ops)
      ≡ map (λ op. some (named op)) ops
unfolding optag_name
tag_names-from null effect front i [] e = refl
tag_names-from null effect front i (op ∷ ops) e =
    let named : Text → Option Text = λ op. some (effect ++ 47 ∷ op) in
    let rest = map named ops ++ none ∷ [] in
    let here : element (front ++ named op ∷ rest) (i + 1) ≡ some (named op) =
      ap (element (front ++ named op ∷ rest)) (sym e) ∙ element-append front rest (named op) in
    let moved = append_assoc front (named op ∷ []) rest in
    let later =
      tag_names-from null effect (front ++ named op ∷ []) (i + 1) ops
        (length-append front (named op ∷ []) ∙ omega arith) in
    ap₂ (λ x l. x ∷ l) here
      (ap (λ names. tag_names null (tags_from names (i + 1) ops)) (sym moved) ∙ later)

-- Each operation of an effect that a macro defines has the name `effect/op`, in the order of the
-- operations, and the effect has its own. The name behind the last one is NULL, and no read is behind the
-- end of the array.
optags_lem :
    (null effect : Text) (ops : List Text)
    → (tag_names null (optags effect ops) ≡ map (λ op. some (some (effect ++ 47 ∷ op))) ops)
      × (effect_name null (some (effect_names effect ops)) ≡ some (some effect))
      × (element (effect_names effect ops) (suc (length ops)) ≡ some none)
unfolding optags effect_name
optags_lem null effect ops = (
  tag_names-from null effect (some effect ∷ []) 0 ops refl,
  refl,
  element-map (λ op. some (effect ++ 47 ∷ op)) ops,
)
