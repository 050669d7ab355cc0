-- ===== src/Prompt/Return.antt =====
-- The end of a prompt's function, by a return or an exception: `mp_prompt_stack_entry` after the call of
-- the function, up to the landing in `mp_prompt_exec_yield_fun`.
use libmprompt.Base.{
  ℕ, suc, ◌≡◌, refl, ap, ◌∙◌, Bool, true, false, List, [], ◌∷◌, arith, write, write_self, has,
  ne_of_has, ◌==◌, All, All-of,
}
use libmprompt.Base.Int.{pos}
use libmprompt.Prompt.State.{State, ReturnKind, returned, exception, M, pure, ◌>>=◌, ◌>>◌, done}
use libmprompt.Prompt.Ops.{prompt_unlink, prompt_drop_internal}
use libmprompt.Prompt.Switch.{
  Jump, Next, to_return, return_value, rethrow, jump_to_return, stack_entry_return,
  stack_entry_exception, exec_kind, exec_yield_fun,
}
use libmprompt.Prompt.Chain.{IsActive, IsSuspended, Chain-frame, ActiveAt-frame}
use libmprompt.Prompt.Link.{unlinked, unlinked-IsActive, unlinked-IsSuspended, prompt_unlink_lem}
use libmprompt.Prompt.Drop.{prompt_drop_single}
use libmprompt.Prompt.Free.{SamePoints}
use libmprompt.Prompt.Yield.{checked_longjmp-done, exec_yield_fun_run, ReturnsSafely}

-- The state in which the end of a function lands.
abbrev pub ended_state : State → (p result : ℕ) → ReturnKind → State
ended_state s p result kind =
    let ret = (s.prompts p).return_point in
    let t = unlinked s p 0 in
    record t {
      returns = write t.returns ret (record (s.returns ret) { fun = 0; arg = result; kind = kind });
    }

-- The two ends.
abbrev pub stack_entry_end : (fuel p result : ℕ) → ReturnKind → M Jump
stack_entry_end fuel p result kind = do
  (ret, sp) ← prompt_unlink fuel p 0
  jump_to_return ret sp 0 result kind

module _ (s : State) (p result : ℕ) (kind : ReturnKind) (ys : List ℕ)
    (v : IsActive s (p ∷ ys)) where
  ended-IsActive : IsActive (ended_state s p result kind) ys
  ended-IsActive =
      let w = unlinked-IsActive s p 0 [] ys v in
      record { chain = w.chain; each = w.each; distinct = w.distinct }

  pub ended-IsSuspended : IsSuspended (ended_state s p result kind) p []
  ended-IsSuspended =
      let w = unlinked-IsSuspended s p 0 [] ys v in
      record {
        chain = w.chain;
        above = w.above;
        ne_null = w.ne_null;
        live = w.live;
        top_ne = w.top_ne;
        distinct = w.distinct;
      }

  pub stack_entry_end_run :
      (fuel : ℕ)
      → ReturnsSafely s p
      → stack_entry_end (suc fuel) p result kind s
        ≡ done (to_return (s.prompts p).return_point) (ended_state s p result kind)
  unfolding jump_to_return
  stack_entry_end_run fuel g =
      let t = ended_state s p result kind in
      let e = s.returns (s.prompts p).return_point in
      rw
        (
          stack_entry_end,
          (prompt_unlink_lem s p 0 [] ys (suc fuel) v (omega arith)).0,
          checked_longjmp-done t t.return_label (s.prompts p).sp e.jmp g.ip_guarded g.sp_guarded,
        )
        refl

-- A state that differs at the freed prompt only has the same chain.
pub IsActive-frame :
    (s s' : State) (p : ℕ) (ys : List ℕ)
    → has p ys ≡ false
    → s'.prompt_top ≡ s.prompt_top
    → ((x : ℕ) → (p == x) ≡ false → s'.prompts x ≡ s.prompts x)
    → IsActive s ys
    → IsActive s' ys
IsActive-frame s s' p ys out top same v =
    let agree = λ (x : ℕ) (h : has x ys ≡ true). same x (ne_of_has p x ys h out) in
    record {
      chain = rw top (Chain-frame s s' s.prompt_top 0 ys agree v.chain);
      each = ActiveAt-frame s s' ys agree v.each;
      distinct = v.distinct;
    }

-- The landing, when it drops the prompt and goes on with `next`.
pub landing_lem :
    (s : State) (fuel fuel' p result : ℕ) (kind : ReturnKind) (ys : List ℕ) (delay : Bool)
    (next : Next)
    → IsActive s (p ∷ ys)
    → ReturnsSafely s p
    → (s.prompts p).refcount ≡ pos 1
    → ((t : State)
        → exec_kind fuel' p kind 0 result t ≡ (prompt_drop_internal fuel' p delay >> pure next) t)
    → fuel' ≡ suc (suc fuel)
    → let ret = (s.prompts p).return_point in
      let t = ended_state s p result kind in
      (s' : State) × (exec_yield_fun fuel' ret p t ≡ done next s')
      × IsActive s' ys
      × ((s'.prompts p).live ≡ false)
      × (s'.released ≡ ((s.prompts p).gstack, delay) ∷ s.released)
      × ((x : ℕ) → (p == x) ≡ false → s'.prompts x ≡ t.prompts x)
      × SamePoints t s'
landing_lem s fuel fuel' p result kind ys delay next v g c drops enough =
    let ret = (s.prompts p).return_point in
    let t = ended_state s p result kind in
    let sus = ended-IsSuspended s p result kind ys v in
    let act = ended-IsActive s p result kind ys v in
    let (s', run, stacks, dead, top, same, points) =
      prompt_drop_single t fuel p delay sus (ground arith) in
    (
      s',
      exec_yield_fun_run t fuel' ret p [] sus
          ∙ ap (λ r. exec_kind fuel' p r.kind r.fun r.arg t)
              (write_self s.returns ret
                (record (s.returns ret) { fun = 0; arg = result; kind = kind }))
          ∙ drops t
          ∙ rw (enough, run) refl,
      IsActive-frame t s' p ys v.distinct.0 top same act,
      dead,
      stacks ∙ ground arith,
      same,
      points,
    )

prompts_below :
    (s s' : State) (p result : ℕ) (kind : ReturnKind) (ys : List ℕ)
    → has p ys ≡ false
    → ((x : ℕ) → (p == x) ≡ false → s'.prompts x ≡ (ended_state s p result kind).prompts x)
    → All (λ x. s'.prompts x ≡ s.prompts x) ys
prompts_below s s' p result kind ys out same =
    All-of ys (λ x h. let ne = ne_of_has p x ys h out in same x ne ∙ rw ne refl)

-- The end of a prompt's function, called on the top prompt, to which there is one reference and whose
-- return point passes the checks of the jump: the result is what the enter or resume returns, the prompt
-- is freed with its stack, and the prompts below it, which are the active ones afterwards, are unchanged.
pub stack_entry_return_lem :
    (s : State) (fuel fuel' p result : ℕ) (ys : List ℕ)
    → IsActive s (p ∷ ys)
    → ReturnsSafely s p
    → (s.prompts p).refcount ≡ pos 1
    → let ret = (s.prompts p).return_point in
      (t s' : State) × (stack_entry_return (suc fuel) p result s ≡ done (to_return ret) t)
      × (exec_yield_fun (suc (suc fuel')) ret p t ≡ done (return_value result) s')
      × IsActive s' ys
      × ((s'.prompts p).live ≡ false)
      × (s'.released ≡ ((s.prompts p).gstack, false) ∷ s.released)
      × All (λ x. s'.prompts x ≡ s.prompts x) ys
unfolding stack_entry_return exec_kind
stack_entry_return_lem s fuel fuel' p result ys v g c =
    let (s', lands, act, dead, stacks, same, _) =
      landing_lem s fuel' (suc (suc fuel')) p result returned ys false (return_value result) v g c
        (λ t. refl) refl in
    (
      ended_state s p result returned,
      s',
      stack_entry_end_run s p result returned ys v fuel g,
      lands,
      act,
      dead,
      stacks,
      prompts_below s s' p result returned ys v.distinct.0 same,
    )

-- An exception in a prompt's function, called on the top prompt, to which there is one reference and
-- whose return point passes the checks of the jump: it is thrown again by the enter or resume, on the
-- stack below. The prompt is freed, its stack only later, since the exception may stand on it, and the
-- prompts below it, which are the active ones afterwards, are unchanged.
pub stack_entry_exception_lem :
    (s : State) (fuel fuel' p : ℕ) (ys : List ℕ)
    → IsActive s (p ∷ ys)
    → ReturnsSafely s p
    → (s.prompts p).refcount ≡ pos 1
    → let ret = (s.prompts p).return_point in
      (t s' : State) × (stack_entry_exception (suc fuel) p s ≡ done (to_return ret) t)
      × (exec_yield_fun (suc (suc fuel')) ret p t ≡ done rethrow s')
      × IsActive s' ys
      × ((s'.prompts p).live ≡ false)
      × (s'.released ≡ ((s.prompts p).gstack, true) ∷ s.released)
      × All (λ x. s'.prompts x ≡ s.prompts x) ys
unfolding stack_entry_exception exec_kind
stack_entry_exception_lem s fuel fuel' p ys v g c =
    let (s', lands, act, dead, stacks, same, _) =
      landing_lem s fuel' (suc (suc fuel')) p 0 exception ys true rethrow v g c (λ t. refl) refl in
    (
      ended_state s p 0 exception,
      s',
      stack_entry_end_run s p 0 exception ys v fuel g,
      lands,
      act,
      dead,
      stacks,
      prompts_below s s' p 0 exception ys v.distinct.0 same,
    )
