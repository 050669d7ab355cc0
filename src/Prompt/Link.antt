-- ===== src/Prompt/Link.antt =====
-- `mp_prompt_unlink` cuts the active chain at a prompt, and `mp_prompt_link` puts a captured chain
-- on top of the current one.
use libmprompt.Base.{
  ℕ, zero, suc, ◌<◌, ◌≡◌, refl, ◌≢◌, true, false, List, [], ◌∷◌, ◌++◌, arith, ◌==◌, if◌then◌else◌,
  write, length, All, has, Distinct, All-left, All-right, All-append, ne_of_has, ==_refl,
  Distinct-middle, Distinct-snoc,
}
use libmprompt.Base.Chain.{Chain, Chain-cut, Chain-join}
use libmprompt.Util.{guard}
use libmprompt.Prompt.State.{State, done}
use libmprompt.Prompt.Ops.{
  prompt_parent, is_ancestor_from, prompt_is_ancestor, prompt_unlink, prompt_link,
}
use libmprompt.Prompt.Chain.{
  parent_of, ActiveAt, IsActive, IsSuspended, Chain-frame, ActiveAt-frame,
}

pub prompt_parent_of :
    (s : State) (x : ℕ) → ActiveAt s x → prompt_parent x s ≡ done (parent_of s x) s
unfolding prompt_parent
prompt_parent_of s x h = ground arith

-- The walk from `q` finds `p`, when the next prompt `a` heads a chain through `p`.
is_ancestor_from-true :
    (s : State) (p q a : ℕ) (xs ys : List ℕ) (fuel : ℕ)
    → prompt_parent q s ≡ done a s
    → Chain (parent_of s) a (xs ++ p ∷ ys) 0
    → All (ActiveAt s) (xs ++ p ∷ ys)
    → length xs < fuel
    → is_ancestor_from fuel p q s ≡ done true s
unfolding is_ancestor_from
is_ancestor_from-true s p q a xs ys zero e c h l = absurd (omega arith)
is_ancestor_from-true s p q a [] ys (suc fuel) e c h l = rw e (ground arith)
is_ancestor_from-true s p q a (x ∷ xs) ys (suc fuel) e c h l = rw e (
    ground (
      arith,
      is_ancestor_from-true s p x (parent_of s x) xs ys fuel (prompt_parent_of s x h.0) c.1 h.1
          (omega arith),
    ))

pub prompt_is_ancestor-true :
    (s : State) (p : ℕ) (xs ys : List ℕ) (fuel : ℕ)
    → IsActive s (xs ++ p ∷ ys)
    → length xs < fuel
    → prompt_is_ancestor fuel p s ≡ done true s
unfolding prompt_is_ancestor
prompt_is_ancestor-true s p xs ys fuel v l =
    is_ancestor_from-true s p 0 s.prompt_top xs ys fuel start v.chain v.each l
  where
    start : prompt_parent 0 s ≡ done s.prompt_top s
    start = unfold prompt_parent in refl

-- What the invariant says of the prompt `p` in the middle of the chain, and of the top.
pub at_middle : (s : State) (p : ℕ) (xs ys : List ℕ) → IsActive s (xs ++ p ∷ ys) → ActiveAt s p
at_middle s p xs ys v = (All-right (ActiveAt s) xs (p ∷ ys) v.each).0

top_ne_null : (s : State) (p : ℕ) (xs ys : List ℕ) → IsActive s (xs ++ p ∷ ys) → s.prompt_top ≢ 0
top_ne_null s p [] ys v = ground arith
top_ne_null s p (x ∷ xs) ys v = ground arith

-- The state that `mp_prompt_unlink(p, res)` leaves.
abbrev pub unlinked : State → (p res : ℕ) → State
unlinked s p res =
    let r = s.prompts p in
    record s {
      prompt_top = r.parent;
      prompts = write s.prompts p (record r {
        parent = 0;
        top = s.prompt_top;
        resume_point = res;
        sp = if res == 0 then r.sp else guard s.cookie (s.resumes res).jmp.reg_sp;
      });
    }

prompt_unlink_run :
    (s : State) (p res : ℕ) (xs ys : List ℕ) (fuel : ℕ)
    → IsActive s (xs ++ p ∷ ys)
    → length xs < fuel
    → prompt_unlink fuel p res s
      ≡ done ((s.prompts p).return_point, (s.prompts p).sp) (unlinked s p res)
unfolding prompt_unlink
prompt_unlink_run s p res xs ys fuel v l =
    let at = at_middle s p xs ys v in
    let top = top_ne_null s p xs ys v in ground (arith, prompt_is_ancestor-true s p xs ys fuel v l)

module _ (s : State) (p res : ℕ) (xs ys : List ℕ) (v : IsActive s (xs ++ p ∷ ys)) where
  cut : Chain (parent_of s) s.prompt_top xs p × Chain (parent_of s) (parent_of s p) ys 0
  cut = Chain-cut (parent_of s) s.prompt_top 0 p xs ys v.chain

  parts : (has p xs ≡ false) × (has p ys ≡ false) × Distinct xs × Distinct ys
  parts = Distinct-middle p xs ys v.distinct

  untouched :
      (zs : List ℕ)
      → has p zs ≡ false
      → (x : ℕ) → has x zs ≡ true
      → (unlinked s p res).prompts x ≡ s.prompts x
  untouched zs out x i = rw (ne_of_has p x zs i out)

  pub unlinked-IsActive : IsActive (unlinked s p res) ys
  unlinked-IsActive = record {
    chain = Chain-frame s (unlinked s p res) (parent_of s p) 0 ys (untouched ys parts.1) cut.1;
    each =
        ActiveAt-frame s (unlinked s p res) ys (untouched ys parts.1)
          (All-right (ActiveAt s) xs (p ∷ ys) v.each).1;
    distinct = parts.3;
  }

  pub unlinked-IsSuspended : IsSuspended (unlinked s p res) p xs
  unlinked-IsSuspended =
      let t = unlinked s p res in
      record {
        chain = rw (==_refl p) (
            Chain-join (parent_of t) s.prompt_top 0 p xs []
              (Chain-frame s t s.prompt_top p xs (untouched xs parts.0) cut.0) (ground arith));
        above =
            ActiveAt-frame s (unlinked s p res) xs (untouched xs parts.0)
              (All-left (ActiveAt s) xs (p ∷ ys) v.each);
        ne_null = (at_middle s p xs ys v).0;
        live = ground (arith, at_middle s p xs ys v);
        top_ne = ground (arith, top_ne_null s p xs ys v);
        distinct = Distinct-snoc p xs parts.0 parts.2;
      }

-- Yielding to a prompt of the active chain suspends it, with exactly the prompts above it, and
-- leaves the prompts below it active.
pub prompt_unlink_lem :
    (s : State) (p res : ℕ) (xs ys : List ℕ) (fuel : ℕ)
    → IsActive s (xs ++ p ∷ ys)
    → length xs < fuel
    → (prompt_unlink fuel p res s
        ≡ done ((s.prompts p).return_point, (s.prompts p).sp) (unlinked s p res))
      × IsActive (unlinked s p res) ys
      × IsSuspended (unlinked s p res) p xs
prompt_unlink_lem s p res xs ys fuel v l = (
  prompt_unlink_run s p res xs ys fuel v l,
  unlinked-IsActive s p res xs ys v,
  unlinked-IsSuspended s p res xs ys v,
)

-- The state that `mp_prompt_link(p, ret)` leaves.
abbrev pub linked : State → (p ret : ℕ) → State
linked s p ret =
    let r = s.prompts p in
    record s {
      prompt_top = r.top;
      prompts = write s.prompts p (record r {
        parent = s.prompt_top;
        top = 0;
        return_point = ret;
        sp = guard s.cookie (s.returns ret).jmp.reg_sp;
      });
    }

prompt_link_run :
    (s : State) (p ret : ℕ) (xs : List ℕ)
    → ret ≢ 0
    → IsSuspended s p xs
    → prompt_link p ret s ≡ done ((s.prompts p).resume_point, (s.prompts p).sp) (linked s p ret)
unfolding prompt_link
prompt_link_run s p ret xs h v = ground arith

module _ (s : State) (p ret : ℕ) (xs ys : List ℕ) (v : IsSuspended s p xs) (w : IsActive s ys)
    (d : Distinct (xs ++ p ∷ ys)) where
  linked-untouched :
      (zs : List ℕ)
      → has p zs ≡ false
      → (x : ℕ) → has x zs ≡ true
      → (linked s p ret).prompts x ≡ s.prompts x
  linked-untouched zs out x i = rw (ne_of_has p x zs i out)

  pub linked-IsActive : IsActive (linked s p ret) (xs ++ p ∷ ys)
  linked-IsActive =
      let t = linked s p ret in
      let apart = Distinct-middle p xs ys d in
      let above = Chain-cut (parent_of s) (s.prompts p).top 0 p xs [] v.chain in
      record {
        chain =
            Chain-join (parent_of t) (s.prompts p).top 0 p xs ys
              (Chain-frame s t (s.prompts p).top p xs (linked-untouched xs apart.0) above.0)
              (rw (parent_of, ==_refl p)
                (Chain-frame s t s.prompt_top 0 ys (linked-untouched ys apart.1) w.chain));
        each =
            All-append (ActiveAt t) xs (p ∷ ys)
              (ActiveAt-frame s t xs (linked-untouched xs apart.0) v.above)
              (
                (v.ne_null, ground arith, ground arith),
                ActiveAt-frame s t ys (linked-untouched ys apart.1) w.each,
              );
        distinct = d;
      }

-- Resuming a suspended prompt puts its captured chain on top of the current one, whole and in the
-- same order, and records the new return point.
pub prompt_link_lem :
    (s : State) (p ret : ℕ) (xs ys : List ℕ)
    → ret ≢ 0
    → IsSuspended s p xs
    → IsActive s ys
    → Distinct (xs ++ p ∷ ys)
    → (prompt_link p ret s ≡ done ((s.prompts p).resume_point, (s.prompts p).sp) (linked s p ret))
      × IsActive (linked s p ret) (xs ++ p ∷ ys)
prompt_link_lem s p ret xs ys h v w d =
    (prompt_link_run s p ret xs h v, linked-IsActive s p ret xs ys v w d)
