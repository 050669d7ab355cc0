-- ===== src/Effect/Tail.antt =====
-- A tail-resumptive operation, which runs in place: `mpe_perform_under` of src/mpeff/mpeff.c.
use libmprompt.Base.{
  ℕ, suc, ◌<◌, ◌≡◌, refl, ap, ◌∙◌, ◌≢◌, true, false, some, List, ◌∷◌, arith, ◌==◌, length, All-mono,
  has, write, ne_of_has, ==_refl,
}
use libmprompt.Base.Chain.{Chain-agree}
use libmprompt.Effect.State.{State, frame_under, inplace, op_tail}
use libmprompt.Effect.Find.{parent_of, mpe_find}
use libmprompt.Effect.Perform.{Calls, value, perform_under, perform_at, mpe_perform}
use libmprompt.Effect.Search.{Passes}
use libmprompt.Effect.Nesting.{Reaches, mpe_find-innermost, mpe_find-under}

-- The state in which the clause of an operation of the handler `h` runs in place, its under frame at
-- `f`.
abbrev pub under_state : State → (f h : ℕ) → State
under_state s f h = record s {
  frames = write s.frames f (record (s.frames f) {
    effect = frame_under;
    under = (s.frames h).effect;
    parent = s.frame_top;
  });
  frame_top = f;
}

pub Reaches-frame :
    (s t : State) (e a h : ℕ) (xs : List ℕ)
    → ((x : ℕ) → has x (h ∷ xs) ≡ true → t.frames x ≡ s.frames x)
    → Reaches s e a h xs
    → Reaches t e a h xs
Reaches-frame s t e a h xs same v = record {
  chain =
      Chain-agree (parent_of s) (parent_of t) a h xs
        (λ x i. ap (λ r. r.parent) (same x (ground arith))) v.chain;
  passes = All-mono (Passes s e) (Passes t e) xs (λ x i a. rw (same x (ground arith)) a) v.passes;
  ne_null = v.ne_null;
  handles = ap (λ r. r.effect) (same h (ground (arith, ==_refl h))) ∙ v.handles;
}

module _ (s : State) (f e h : ℕ) (xs : List ℕ) (v : Reaches s e s.frame_top h xs)
    (fresh : has f (h ∷ xs) ≡ false) where
  untouched : (x : ℕ) → has x (h ∷ xs) ≡ true → (under_state s f h).frames x ≡ s.frames x
  untouched x i = rw (ne_of_has f x (h ∷ xs) i fresh) refl

  under_state-Reaches : Reaches (under_state s f h) e (parent_of (under_state s f h) f) h xs
  under_state-Reaches =
      rw (parent_of, ==_refl f) (Reaches-frame s (under_state s f h) e s.frame_top h xs untouched v)

  -- While the clause runs in place, its operations are handled outside of `h`.
  in_clause :
      (n e' : ℕ)
      → f ≢ 0
      → e' ≢ frame_under
      → length xs < n
      → mpe_find (suc n) e' (under_state s f h)
        ≡ mpe_find n e' (record (under_state s f h) { frame_top = parent_of s h })
  in_clause n e' k i l =
      mpe_find-under (under_state s f h) n e e' h xs k i (rw (==_refl f) refl)
        (rw (==_refl f) v.handles) under_state-Reaches l
      ∙ ap (λ p. mpe_find n e' (record (under_state s f h) { frame_top = p }))
          (ap (λ r. r.parent) (untouched h (ground (arith, ==_refl h))))

perform_under_run :
    (calls : Calls) (s t : State) (f h opfun arg x : ℕ)
    → calls.opfun opfun
        (record { kind = inplace; target = h })
        (s.frames h).local
        arg
        (under_state s f h)
      ≡ some (x, t)
    → (t.frames f).parent ≡ s.frame_top
    → perform_under calls f h opfun arg s ≡ some (x, record t { frame_top = s.frame_top })
unfolding perform_under
perform_under_run calls s t f h opfun arg x run kept = rw (run, kept, perform_under) refl

-- A tail-resumptive operation whose effect has the handler `h`, with no mask of the effect, no under
-- frame and no other handler of the effect above `h`: the clause is called in place, with the state of
-- `h`, under a new under frame. When the clause returns and has left the parent of that frame alone, its
-- value is the value of the operation, the top frame is the one from before the operation again, and all
-- else is as the clause left it. In the state in which the clause starts, an operation of any effect is
-- searched for from outside of `h`.
pub perform_tail_lem :
    (calls : Calls) (s t : State) (fuel n f e e' opidx arg h x : ℕ) (xs : List ℕ)
    → Reaches s e s.frame_top h xs
    → has f (h ∷ xs) ≡ false
    → f ≢ 0
    → e' ≢ frame_under
    → length xs < fuel
    → length xs < n
    → let op = (s.hdefs (s.frames h).hdef).operations opidx in
      op.opkind ≡ op_tail
      → calls.opfun op.opfun
          (record { kind = inplace; target = h })
          (s.frames h).local
          arg
          (under_state s f h)
        ≡ some (x, t)
      → (t.frames f).parent ≡ s.frame_top
      → (mpe_perform calls fuel f e opidx arg s
          ≡ some ((0, value x), record t { frame_top = s.frame_top }))
        × (mpe_find (suc n) e' (under_state s f h)
            ≡ mpe_find n e' (record (under_state s f h) { frame_top = parent_of s h }))
unfolding mpe_perform
perform_tail_lem calls s t fuel n f e e' opidx arg h x xs v fresh k i l m tail run kept =
    let ne : (h == 0) ≡ false = ground (arith, v.ne_null) in
    let op = (s.hdefs (s.frames h).hdef).operations opidx in
    (
      rw
          (
            mpe_find-innermost s fuel e h xs v l,
            ne,
            mpe_perform,
            tail,
            perform_under_run calls s t f h op.opfun arg x run kept,
            perform_at,
          )
          refl,
      in_clause s f e h xs v fresh n e' k i m,
    )
