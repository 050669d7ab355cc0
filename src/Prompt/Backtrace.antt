-- ===== src/Prompt/Backtrace.antt =====
-- The backtrace of src/mprompt/mprompt.c on Windows and macOS: the frames of the current stack, then, by a
-- yield to the prompt, those of the stack below, and so on. A yield and its resume in tail position give
-- the result back unchanged, so that the calls nest here directly.
use mathlib.Core.List.{append-nil}
use libmprompt.Base.{
  ℕ, zero, suc, ◌+◌, ◌-◌, ◌≡◌, refl, sym, ap, ◌∙◌, Bool, true, false, ◌||◌, List, [], ◌∷◌, ◌++◌,
  map, arith, ◌==◌, ltb, leb, length, take, take_nil, take-append, drop, drop_nil, Bool-cases, inl,
  inr, if◌then◌else◌,
}

-- What the unwinder tells of a frame: its return address, and whether it is in `mp_stack_enter`.
pub record Frame : Type 0 where
  pub ip : ℕ
  pub entry : Bool

-- The loop of `mp_mach_unw_backtrace`, after `count` addresses.
unfoldable pub unw_loop : (frames : List Frame) → (len count skip : ℕ) → List ℕ
unw_loop [] len count skip = []
unw_loop (f ∷ fs) len count skip =
    let skips = ltb 0 skip in
    let rest =
      unw_loop fs len (if skips then count else count + 1) (if skips then skip - 1 else skip) in
    let more = if f.entry then [] else rest in
    if leb len count then [] else if skips then more else f.ip ∷ more

-- `mp_win_backtrace` and `mp_mach_backtrace`: a capture gives the addresses of one stack, at most as many
-- as it is asked for; the last stack is the one under all prompts.
unfoldable pub backtrace_from : (captures : List (ℕ → List ℕ)) → (len : ℕ) → List ℕ
backtrace_from [] len = []
backtrace_from (capture ∷ []) len = if len == 0 then [] else capture len
backtrace_from (capture ∷ next ∷ captures) len =
    let n = length (capture len) in
    let rest = backtrace_from (next ∷ captures) (len - n) in
    if len == 0 then [] else if n == 0 || leb len n then capture len else capture len ++ rest

-- `mp_backtrace` on macOS, for the frames of each stack.
unfoldable pub mach_backtrace : (stacks : List (List Frame)) → (len : ℕ) → List ℕ
unfolding unw_loop backtrace_from
mach_backtrace stacks len =
    backtrace_from (map (λ (fs : List Frame) (n : ℕ). unw_loop fs n 0 2) stacks) len

-- The addresses that the frames of a stack show: up to its entry, without the first two.
abbrev pub upto_entry : List Frame → List Frame
upto_entry [] = []
upto_entry (f ∷ fs) = f ∷ (if f.entry then [] else upto_entry fs)

abbrev pub visible : List Frame → List ℕ
visible fs = drop 2 (map Frame.ip (upto_entry fs))

-- The addresses of all stacks, up to one that shows none.
abbrev pub reachable : List (List ℕ) → List ℕ
reachable [] = []
reachable ([] ∷ stacks) = []
reachable ((x ∷ xs) ∷ stacks) = (x ∷ xs) ++ reachable stacks

unw_loop_lem :
    (fs : List Frame) (len count skip : ℕ)
    → unw_loop fs len count skip ≡ take (len - count) (drop skip (map Frame.ip (upto_entry fs)))
unfolding unw_loop
unw_loop_lem [] len count skip = rw (drop_nil {A = ℕ} skip, take_nil {A = ℕ} (len - count)) refl
unw_loop_lem (f ∷ fs) len count zero = elim (Bool-cases (leb len count)) [
  | inl e ↦ let none_left : len - count ≡ 0 = ground arith in rw (e, none_left) refl
  | inr e ↦
      let left : len - count ≡ suc (len - (count + 1)) = ground arith in
      let ih = unw_loop_lem fs len (count + 1) 0 in
      elim (Bool-cases f.entry) [
        | inl t ↦ rw (e, left, t, take_nil {A = ℕ} (len - (count + 1))) refl
        | inr t ↦ rw (e, left, t) (ap (λ (l : List ℕ). f.ip ∷ l) ih)
      ]
]
unw_loop_lem (f ∷ fs) len count (suc skip) =
    let skips : ltb 0 (suc skip) ≡ true = ground arith in
    let less : suc skip - 1 ≡ skip = omega arith in
    let ih = unw_loop_lem fs len count skip in
    elim (Bool-cases (leb len count)) [
      | inl e ↦ let none_left : len - count ≡ 0 = ground arith in rw (e, none_left) refl
      | inr e ↦ elim (Bool-cases f.entry) [
        | inl t ↦ rw (e, skips, t, drop_nil {A = ℕ} skip, take_nil {A = ℕ} (len - count)) refl
        | inr t ↦ rw (e, skips, less, t) ih
      ]
    ]

-- The captures give the first addresses of the lists.
abbrev pub Captures : List (ℕ → List ℕ) → List (List ℕ) → Type 0
Captures [] [] = Unit {0}
Captures (c ∷ cs) (xs ∷ xss) = ((n : ℕ) → c n ≡ take n xs) × Captures cs xss
Captures _ _ = ⊥

reachable_one : (xs : List ℕ) → reachable (xs ∷ []) ≡ xs
reachable_one [] = refl
reachable_one (x ∷ xs) = append-nil (x ∷ xs)

-- The captured addresses of one stack, in front of the others.
stack_and_more :
    (c : ℕ → List ℕ) (xs : List ℕ) (shown : List (List ℕ)) (len : ℕ) (rest : List ℕ)
    → ((n : ℕ) → c n ≡ take n xs)
    → rest ≡ take (len - length (c len)) (reachable shown)
    → (if len == 0
        then []
        else if length (c len) == 0 || leb len (length (c len))
        then c len
        else c len ++ rest)
      ≡ take len (reachable (xs ∷ shown))
stack_and_more c xs shown zero rest h e = refl
stack_and_more c [] shown (suc k) rest h e =
    let more : (suc k == 0) ≡ false = ground arith in rw (more, h (suc k)) refl
stack_and_more c (x ∷ xs) shown (suc k) rest h e =
    let more : (suc k == 0) ≡ false = ground arith in
    let whole = take-append (suc k) (x ∷ xs) (reachable shown) in
    let shows : (length (take (suc k) (x ∷ xs)) == 0) ≡ false = ground arith in
    elim (Bool-cases (leb (suc k) (length (take (suc k) (x ∷ xs))))) [
      | inl t ↦
          let none_left : suc k - length (take (suc k) (x ∷ xs)) ≡ 0 = ground arith in
          rw (more, h (suc k), shows, t) refl
          ∙ sym ((rw none_left at whole) ∙ append-nil (take (suc k) (x ∷ xs)))
      | inr t ↦
          rw (more, h (suc k), shows, t)
            (ap (λ (l : List ℕ). take (suc k) (x ∷ xs) ++ l) (rw (h (suc k)) at e))
          ∙ sym whole
    ]

backtrace_from_lem :
    (captures : List (ℕ → List ℕ)) (shown : List (List ℕ)) (len : ℕ)
    → Captures captures shown
    → backtrace_from captures len ≡ take len (reachable shown)
unfolding backtrace_from
backtrace_from_lem [] [] len h = rw (take_nil {A = ℕ} len) refl
backtrace_from_lem (c ∷ []) (xs ∷ []) zero h = refl
backtrace_from_lem (c ∷ []) (xs ∷ []) (suc k) h =
    let more : (suc k == 0) ≡ false = ground arith in rw (more, h.0 (suc k), reachable_one xs) refl
backtrace_from_lem (c ∷ d ∷ cs) (xs ∷ ys ∷ yss) len h =
    stack_and_more c xs (ys ∷ yss) len (backtrace_from (d ∷ cs) (len - length (c len))) h.0
      (backtrace_from_lem (d ∷ cs) (ys ∷ yss) (len - length (c len)) h.1)
backtrace_from_lem [] (xs ∷ xss) len h = absurd h
backtrace_from_lem (c ∷ cs) [] len h = absurd h
backtrace_from_lem (c ∷ []) (xs ∷ ys ∷ yss) len h = absurd h.1
backtrace_from_lem (c ∷ d ∷ cs) (xs ∷ []) len h = absurd h.1

unwound :
    (stacks : List (List Frame))
    → Captures (map (λ (fs : List Frame) (n : ℕ). unw_loop fs n 0 2) stacks) (map visible stacks)
unwound [] = tt
unwound (fs ∷ stacks) =
    ((λ n. let all : n - 0 ≡ n = omega arith in rw all at (unw_loop_lem fs n 0 2)), unwound stacks)

-- A backtrace across the prompts is the first `len` of the addresses of all stacks, the innermost
-- first: of each stack those up to its entry without the first two, and no further than a stack that
-- shows none.
pub mach_backtrace_lem :
    (stacks : List (List Frame)) (len : ℕ)
    → mach_backtrace stacks len ≡ take len (reachable (map visible stacks))
unfolding mach_backtrace
mach_backtrace_lem stacks len = backtrace_from_lem _ (map visible stacks) len (unwound stacks)
