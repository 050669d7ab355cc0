-- ===== src/Prompt/Machine/Represents.antt =====
-- How a state of src/mprompt/mprompt.c stands for a state of the abstract machine.
use libmprompt.Base.{
  Bool, ◌<◌, ℕ, ◌≡◌, ◌≢◌, true, false, List, [], ◌∷◌, ◌++◌, none, some, has, ◌==◌, ◌≤◌, length,
  arith, sym, ◌∙◌, has-append, ==_iff, Option-cases, inl, inr,
}
use mathlib.Core.Path.{subst}
use libmprompt.Base.Int.{pos}
use libmprompt.Util.{guard}
use libmprompt.Prompt.State.{State}
use libmprompt.Prompt.Chain.{IsActive, IsSuspended, Chain-frame, ActiveAt-frame}
use libmprompt.Prompt.Yield.{ReturnsSafely, LabelFits}
use libmprompt.Prompt.Resume.{ResumesSafely}
use libmprompt.Prompt.Machine.{Machine, free, running, held_by}

-- The suspended prompt `q` stands in memory as the machine has it.
pub record Holds (s : State) (m : Machine) (q : ℕ) (xs : List ℕ) : Type 0 where
  pub chain : IsSuspended s q xs
  pub resumes : ResumesSafely s q
  pub stopped : (s.prompts q).resume_point ≡ m.stopped_at q
  pub marked : (x : ℕ) → has x (xs ++ q ∷ []) ≡ true → m.place x ≡ held_by q

-- A prompt in use has one reference and its last return point; unless it is suspended, a jump there is
-- let through.
pub record Used (s : State) (m : Machine) (x : ℕ) : Type 0 where
  pub refcount : (s.prompts x).refcount ≡ pos 1
  pub entered : (s.prompts x).return_point ≡ m.entered_at x
  pub gstack : (s.prompts x).gstack ≡ m.stack_of x
  pub label : s.return_label ≡ guard s.cookie (s.returns (s.prompts x).return_point).jmp.reg_ip
  pub sp :
      m.captured x ≡ none
      → (s.prompts x).sp ≡ guard s.cookie (s.returns (s.prompts x).return_point).jmp.reg_sp

-- The code after `mp_setjmp` stands at one address for all return points, and at one for all resume
-- points: each is one place of the source. The labels are not set yet, or hold these.
pub record Labels (return_ip resume_ip : ℕ) (s : State) : Type 0 where
  pub return_label : LabelFits s.return_label (guard s.cookie return_ip)
  pub resume_label : LabelFits s.resume_label (guard s.cookie resume_ip)
  pub returns : (ret : ℕ) → (s.returns ret).jmp.reg_ip ≡ return_ip
  pub resumes : (res : ℕ) → (s.resumes res).jmp.reg_ip ≡ resume_ip

pub record Represents (debug : Bool) (return_ip resume_ip depth : ℕ) (s : State) (m : Machine)
    : Type 0 where
  pub labels : Labels return_ip resume_ip s
  pub active : IsActive s m.active
  pub bounded : length m.active ≤ depth
  pub marked : (x : ℕ) → has x m.active ≡ true → m.place x ≡ running
  pub held : (q : ℕ) (xs : List ℕ) → m.captured q ≡ some xs → Holds s m q xs
  pub held_short : (q : ℕ) (xs : List ℕ) → m.captured q ≡ some xs → length xs < depth
  pub used : (x : ℕ) → m.place x ≢ free → Used s m x
  pub released : s.released ≡ m.released
  pub same_debug : s.debug ≡ debug

-- What a step does to the rest of the memory: the prompts that are not `touched` stay as they are, and so do the
-- jump buffers; the labels are only set.
pub record Only (touched : ℕ → Bool) (s t : State) : Type 0 where
  pub prompts : (x : ℕ) → touched x ≡ false → t.prompts x ≡ s.prompts x
  pub returns : (ret : ℕ) → (t.returns ret).jmp ≡ (s.returns ret).jmp
  pub resumes : (res : ℕ) → (t.resumes res).jmp ≡ (s.resumes res).jmp
  pub cookie : t.cookie ≡ s.cookie
  pub debug : t.debug ≡ s.debug
  pub return_label :
      (ret : ℕ)
      → s.return_label ≡ guard s.cookie (s.returns ret).jmp.reg_ip
      → t.return_label ≡ guard s.cookie (s.returns ret).jmp.reg_ip
  pub resume_label :
      (res : ℕ)
      → s.resume_label ≡ guard s.cookie (s.resumes res).jmp.reg_ip
      → t.resume_label ≡ guard s.cookie (s.resumes res).jmp.reg_ip

module _ (touched : ℕ → Bool) (s t : State) (m n : Machine) (only : Only touched s t) where
  -- A suspended prompt whose chain is not touched stands as before.
  pub Holds-frame :
      (q : ℕ) (xs : List ℕ)
      → ((x : ℕ) → has x (xs ++ q ∷ []) ≡ true → touched x ≡ false)
      → n.stopped_at q ≡ m.stopped_at q
      → ((x : ℕ) → has x (xs ++ q ∷ []) ≡ true → n.place x ≡ m.place x)
      → Holds s m q xs
      → Holds t n q xs
  Holds-frame q xs out stop places h =
      let agree = λ (x : ℕ) (i : has x (xs ++ q ∷ []) ≡ true). only.prompts x (out x i) in
      let same : t.prompts q ≡ s.prompts q = agree q (ground (arith, has-append q xs (q ∷ []))) in
      let above : (x : ℕ) → has x xs ≡ true → t.prompts x ≡ s.prompts x =
        λ x i. agree x (ground (arith, has-append x xs (q ∷ []))) in
      record {
        chain = record {
          chain = rw same (Chain-frame s t (s.prompts q).top 0 (xs ++ q ∷ []) agree h.chain.chain);
          above = ActiveAt-frame s t xs above h.chain.above;
          ne_null = h.chain.ne_null;
          live = rw same h.chain.live;
          top_ne = rw same h.chain.top_ne;
          distinct = h.chain.distinct;
        };
        resumes = record {
          sp_guarded = rw (same, only.resumes, only.cookie) h.resumes.sp_guarded;
          ip_guarded =
              rw (same, only.resumes, only.cookie) (only.resume_label _ h.resumes.ip_guarded);
          yielded = rw same h.resumes.yielded;
        };
        stopped = rw same h.stopped ∙ sym stop;
        marked = λ x i. places x i ∙ h.marked x i;
      }

  -- Another prompt in use stands as before.
  pub Used-frame :
      (x : ℕ)
      → touched x ≡ false
      → n.entered_at x ≡ m.entered_at x
      → n.stack_of x ≡ m.stack_of x
      → (n.captured x ≡ none → m.captured x ≡ none)
      → Used s m x
      → Used t n x
  Used-frame x ne enter stack cap u =
      let same = only.prompts x ne in
      record {
        refcount = rw same u.refcount;
        entered = rw same u.entered ∙ sym enter;
        gstack = rw same u.gstack ∙ sym stack;
        label = rw (same, only.returns, only.cookie) (only.return_label _ u.label);
        sp = λ c. rw (same, only.returns, only.cookie) (u.sp (cap c));
      }

-- The prompt `p` itself, when it has just been entered or resumed.
pub Used-entered :
    (s : State) (m : Machine) (p x : ℕ)
    → (p == x) ≡ true
    → (s.prompts p).refcount ≡ pos 1
    → (s.prompts p).return_point ≡ m.entered_at p
    → (s.prompts p).gstack ≡ m.stack_of p
    → ReturnsSafely s p
    → Used s m x
Used-entered s m p x e count point stack safe =
    subst (λ y. Used s m y) ((==_iff p x).0 e)
      (record {
        refcount = count;
        entered = point;
        gstack = stack;
        label = safe.ip_guarded;
        sp = λ c. safe.sp_guarded;
      })

-- The prompts of the current chain are not suspended, so they return safely.
pub running-ReturnsSafely :
    (debug : Bool) (return_ip resume_ip depth : ℕ) (s : State) (m : Machine) (p : ℕ)
    → Represents debug return_ip resume_ip depth s m
    → m.place p ≡ running
    → ReturnsSafely s p
running-ReturnsSafely debug return_ip resume_ip depth s m p w on =
    let u = w.used p (ground arith) in
    let out : m.captured p ≡ none = elim (Option-cases (m.captured p)) [
      | inl e ↦ e
      | inr (xs, e) ↦
          absurd
            (ground (arith, (w.held p xs e).marked p (ground (arith, has-append p xs (p ∷ [])))))
    ] in
    record { sp_guarded = u.sp out; ip_guarded = u.label }
