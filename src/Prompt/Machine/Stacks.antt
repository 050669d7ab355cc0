-- ===== src/Prompt/Machine/Stacks.antt =====
-- Which stacks the prompts have, and which are handed back, over a run of src/mprompt/mprompt.c.
use libmprompt.Base.{
  ne_of_has, ◌∙◌, ℕ, ◌+◌, ◌≡◌, ◌≢◌, refl, inl, inr, Bool, true, false, not, ◌&&◌, List, [], some,
  ◌∷◌, ◌++◌, has, ◌==◌, map, Distinct, arith, Bool-cases, if◌then◌else◌, write, ==_iff, ==_refl,
  write_self,
}
use mathlib.Core.Path.{subst}
use libmprompt.Prompt.Free.{release_all}
use libmprompt.Prompt.State.{State}
use libmprompt.Prompt.Machine.{
  Machine, free, mark, begun, suspended, restarted, ended, dropped, Action, begins, yields, resumes,
  ends, throws, drops, Landing, Step, begins_new, yields_to, resumes_held, ends_top, throws_top,
  drops_lone, drops_held,
}
use libmprompt.Prompt.Machine.Represents.{Represents}
use libmprompt.Prompt.Machine.Yielding.{front_running}
use libmprompt.Prompt.Machine.Ending.{top_running}

-- How often a number stands in a list.
abbrev pub occurs : ℕ → List ℕ → ℕ
occurs g [] = 0
occurs g (x ∷ xs) = (if x == g then 1 else 0) + occurs g xs

-- The list without the first occurrence of a number.
abbrev pub remove : ℕ → List ℕ → List ℕ
remove p [] = []
remove p (x ∷ xs) = let rest = remove p xs in if x == p then xs else x ∷ rest

-- The stacks given to `mp_prompt`.
abbrev pub given_after : Action → List ℕ → List ℕ
given_after (begins gstack p env ret) given = gstack ∷ given
given_after (yields p fun arg res) given = given
given_after (resumes p value ret) given = given
given_after (ends p result) given = given
given_after (throws p) given = given
given_after (drops p) given = given

abbrev pub all_given : List Action → List ℕ → List ℕ
all_given [] given = given
all_given (a ∷ acts) given = all_given acts (given_after a given)

has-remove :
    (p x : ℕ) (xs : List ℕ) → Distinct xs → has x (remove p xs) ≡ (has x xs && not (p == x))
has-remove p x [] d = refl
has-remove p x (y ∷ xs) d = ground (arith, has-remove p x xs d.1)

Distinct-remove : (p : ℕ) (xs : List ℕ) → Distinct xs → Distinct (remove p xs)
Distinct-remove p [] d = tt
Distinct-remove p (x ∷ xs) d = elim (Bool-cases (x == p)) [
  | inl e ↦ rw e d.1
  | inr e ↦ rw e (ground (arith, has-remove p x xs d.1), Distinct-remove p xs d.1)
]

module _ (f : ℕ → ℕ) (g p : ℕ) where
  occurs-remove :
      (xs : List ℕ)
      → has p xs ≡ true
      → occurs g (map f (remove p xs)) + occurs g (f p ∷ []) ≡ occurs g (map f xs)
  occurs-remove [] h = absurd (ground arith)
  occurs-remove (x ∷ xs) h = elim (Bool-cases (x == p)) [
    | inl e ↦ let same : x ≡ p = (==_iff x p).0 e in rw (e, same) (omega arith)
    | inr e ↦ rw e (omega (arith, occurs-remove xs (ground arith)))
  ]

map-write : (f : ℕ → ℕ) (p v : ℕ) (xs : List ℕ) → has p xs ≡ false → map (write f p v) xs ≡ map f xs
map-write f p v [] h = refl
map-write f p v (x ∷ xs) h =
    let ne : (p == x) ≡ false = ground arith in rw (ne, map-write f p v xs (ground arith)) refl

-- `used` are the prompts in use, and the stacks in `given` are theirs or have been handed back.
pub record Accounts (m : Machine) (used given : List ℕ) : Type 0 where
  pub distinct : Distinct used
  pub places : (x : ℕ) → has x used ≡ true → m.place x ≢ free
  pub all : (x : ℕ) → m.place x ≢ free → has x used ≡ true
  pub sums :
      (g : ℕ)
      → occurs g (map m.stack_of used) + occurs g (map (λ r. r.0) m.released) ≡ occurs g given

-- Places that are in use before and after.
same-Accounts :
    (m n : Machine) (used given : List ℕ)
    → n.stack_of ≡ m.stack_of
    → n.released ≡ m.released
    → ((x : ℕ) → m.place x ≢ free → n.place x ≢ free)
    → ((x : ℕ) → n.place x ≢ free → m.place x ≢ free)
    → Accounts m used given
    → Accounts n used given
same-Accounts m n used given e f there back a = record {
  distinct = a.distinct;
  places = λ x i. there x (a.places x i);
  all = λ x u. a.all x (back x u);
  sums = λ g. rw (e, f) (a.sums g);
}

begun-Accounts :
    (m : Machine) (gstack p ret : ℕ) (used given : List ℕ)
    → m.place p ≡ free
    → Accounts m used given
    → Accounts (begun m gstack p ret) (p ∷ used) (gstack ∷ given)
begun-Accounts m gstack p ret used given unused a =
    let out : has p used ≡ false = elim (Bool-cases (has p used)) [
      | inl e ↦ absurd (a.places p e unused)
      | inr e ↦ e
    ] in
    record {
      distinct = (out, a.distinct);
      places = λ x i. ground (arith, a.places x);
      all = λ x u. ground (arith, a.all x);
      sums = λ g.
          rw (write_self m.stack_of p gstack, map-write m.stack_of p gstack used out)
            (omega (arith, a.sums g));
    }

removed-Accounts :
    (m n : Machine) (p : ℕ) (delay : Bool) (used given : List ℕ)
    → n.stack_of ≡ m.stack_of
    → n.released ≡ (m.stack_of p, delay) ∷ m.released
    → ((x : ℕ) → n.place x ≡ mark (p ∷ []) free m.place x)
    → m.place p ≢ free
    → Accounts m used given
    → Accounts n (remove p used) given
removed-Accounts m n p delay used given e f h u a = record {
  distinct = Distinct-remove p used a.distinct;
  places = λ x i. rw (h x) (ground (arith, has-remove p x used a.distinct, a.places x));
  all = λ x v.
      let q : mark (p ∷ []) free m.place x ≢ free = subst (λ y. y ≢ free) (h x) v in
      ground (arith, has-remove p x used a.distinct, a.all x);
  sums = λ g. rw (e, f) (omega (arith, occurs-remove m.stack_of g p used (a.all p u), a.sums g));
}

-- The prompts `ps` are freed, one after the other.
removed_all-Accounts :
    (m n : Machine) (ps used given : List ℕ)
    → n.stack_of ≡ m.stack_of
    → n.released ≡ release_all false (map m.stack_of ps) m.released
    → ((x : ℕ) → n.place x ≡ mark ps free m.place x)
    → ((x : ℕ) → has x ps ≡ true → m.place x ≢ free)
    → Distinct ps
    → Accounts m used given
    → (left : List ℕ) × Accounts n left given
removed_all-Accounts m n [] used given e f h u d a = (
  used,
  same-Accounts m n used given e f (λ x v. rw (h x) v) (λ x v. subst (λ y. y ≢ free) (h x) v) a,
)
removed_all-Accounts m n (p ∷ ps) used given e f h u d a =
    let once : Machine = record m {
      place = mark (p ∷ []) free m.place;
      released = (m.stack_of p, false) ∷ m.released;
    } in
    let b =
      removed-Accounts m once p false used given refl refl (λ x. refl)
        (u p (ground (arith, ==_refl p))) a in
    removed_all-Accounts once n ps (remove p used) given e f (λ x. h x ∙ ground arith)
      (λ x i. ground (arith, ne_of_has p x ps i d.0, u x)) d.1 b

module _ (debug : Bool) (return_ip resume_ip depth : ℕ) (s : State) (m : Machine)
    (used given : List ℕ) (w : Represents debug return_ip resume_ip depth s m)
    (a : Accounts m used given) where
  suspended-Accounts :
      (p res : ℕ) (xs ys : List ℕ)
      → m.active ≡ xs ++ p ∷ ys
      → Accounts (suspended m p res xs ys) used given
  suspended-Accounts p res xs ys cut =
      let on = front_running debug return_ip resume_ip depth s m p xs ys w cut in
      same-Accounts m (suspended m p res xs ys) used given refl refl (λ x u. ground arith)
        (λ x u. ground (arith, on x)) a

  restarted-Accounts :
      (p ret : ℕ) (xs : List ℕ)
      → m.captured p ≡ some xs
      → Accounts (restarted m p ret xs) used given
  restarted-Accounts p ret xs cap =
      same-Accounts m (restarted m p ret xs) used given refl refl (λ x u. ground arith)
        (λ x u. ground (arith, (w.held p xs cap).marked x)) a

  ended-Accounts :
      (p : ℕ) (delay : Bool) (ys : List ℕ)
      → m.active ≡ p ∷ ys
      → Accounts (ended m p delay ys) (remove p used) given
  ended-Accounts p delay ys top =
      removed-Accounts m (ended m p delay ys) p delay used given refl refl (λ x. refl)
        (ground (arith, top_running debug return_ip resume_ip depth s m p w ys top)) a

  dropped-Accounts :
      (p : ℕ) (xs : List ℕ)
      → m.captured p ≡ some xs
      → (left : List ℕ) × Accounts (dropped m p xs) left given
  dropped-Accounts p xs cap =
      let h = w.held p xs cap in
      removed_all-Accounts m (dropped m p xs) (xs ++ p ∷ []) used given refl refl (λ x. refl)
        (λ x i. ground (arith, h.marked x i)) h.chain.distinct a

  pub Step-Accounts :
      (n : Machine) (act : Action) (e : Landing)
      → Step debug depth m act e n
      → (left : List ℕ) × Accounts n left (given_after act given)
  Step-Accounts n act e (begins_new {gstack} {p} {env} {ret} hg hp hr unused short) =
      (p ∷ used, begun-Accounts m gstack p ret used given unused a)
  Step-Accounts n act e (yields_to xs ys cut ne) = (used, suspended-Accounts _ _ xs ys cut)
  Step-Accounts n act e (resumes_held xs cap ne short) = (used, restarted-Accounts _ _ xs cap)
  Step-Accounts n act e (ends_top {p} ys top) = (remove p used, ended-Accounts p false ys top)
  Step-Accounts n act e (throws_top {p} ys top) = (remove p used, ended-Accounts p true ys top)
  Step-Accounts n act e (drops_lone {p} cap) = dropped-Accounts p [] cap
  Step-Accounts n act e (drops_held {p} xs release cap) = dropped-Accounts p xs cap
