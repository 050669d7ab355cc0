-- ===== src/Prompt/Yield.antt =====
-- `mp_yield` up to its landing in `mp_prompt_exec_yield_fun`.
use libmprompt.Base.{
  ℕ, ◌<◌, ◌≡◌, refl, ap, ◌∙◌, ◌⊎◌, ◌≢◌, true, List, ◌∷◌, ◌++◌, arith, ◌==◌, if◌then◌else◌, ◌&&◌,
  write, length, write_self,
}
use libmprompt.Util.{guard}
use libmprompt.Util.Guard.{unguard-guard}
use libmprompt.Prompt.State.{State, Jmpbuf, yielded, done, fatal, efault, check-done}
use libmprompt.Prompt.Ops.{
  prompt_is_active, prompt_is_suspended, prompt_is_ancestor, checked_longjmp,
}
use libmprompt.Prompt.Switch.{
  to_return, call_yielded, yield_to, exec_kind, exec_yield_fun, init_resume_label,
}
use libmprompt.Prompt.Chain.{ActiveAt, IsActive, IsSuspended}
use libmprompt.Prompt.Link.{
  prompt_is_ancestor-true, at_middle, unlinked, unlinked-IsActive, unlinked-IsSuspended,
  prompt_unlink_lem,
}

-- A jump whose target is the guarded one goes through.
pub checked_longjmp-done :
    (s : State) (label sp : ℕ) (j : Jmpbuf)
    → label ≡ guard s.cookie j.reg_ip
    → sp ≡ guard s.cookie j.reg_sp
    → checked_longjmp label sp j s ≡ done tt s
unfolding checked_longjmp
checked_longjmp-done s label sp j e f =
    rw (e, f) (ground (arith, unguard-guard s.cookie j.reg_ip, unguard-guard s.cookie j.reg_sp))

-- A jump to a place with another stack pointer is stopped.
pub checked_longjmp-fatal :
    (s : State) (label sp : ℕ) (j : Jmpbuf)
    → j.reg_sp ≢ sp
    → checked_longjmp label (guard s.cookie sp) j s ≡ fatal efault
unfolding checked_longjmp
checked_longjmp-fatal s label sp j h = ground (arith, unguard-guard s.cookie sp)

-- A jump whose code and stack addresses are guarded is let through exactly if both are the ones in
-- the jump buffer; any other ends the program.
checked_longjmp_lem :
    (s : State) (ip sp : ℕ) (j : Jmpbuf)
    → checked_longjmp (guard s.cookie ip) (guard s.cookie sp) j s
      ≡ (if ip == j.reg_ip && sp == j.reg_sp then done tt s else fatal efault)
unfolding checked_longjmp
checked_longjmp_lem s ip sp j = ground (arith, unguard-guard s.cookie ip, unguard-guard s.cookie sp)

-- The return point of the prompt `p` is the one that it was entered or resumed from, and the code
-- after `mp_setjmp` there is known.
pub record ReturnsSafely (s : State) (p : ℕ) : Type 0 where
  pub sp_guarded :
      (s.prompts p).sp ≡ guard s.cookie (s.returns (s.prompts p).return_point).jmp.reg_sp
  pub ip_guarded : s.return_label ≡ guard s.cookie (s.returns (s.prompts p).return_point).jmp.reg_ip

-- A label is not set yet, or it is the given guarded address.
abbrev pub LabelFits : ℕ → ℕ → Type 0
LabelFits label ip = (label ≡ 0) ⊎ (label ≡ ip)

-- The state with the resume label set.
abbrev pub labelled : State → ℕ → State
labelled s ip = record s {
  resume_label = if s.resume_label == 0 then guard s.cookie ip else s.resume_label;
}

-- The state in which a yield lands.
abbrev pub yielded_state : State → (p fun arg res : ℕ) → State
yielded_state s p fun arg res =
    let ret = (s.prompts p).return_point in
    let t = unlinked (labelled s (s.resumes res).jmp.reg_ip) p res in
    record t {
      returns =
          write t.returns ret (record (s.returns ret) { fun = fun; arg = arg; kind = yielded });
    }

init_resume_label_run : (s : State) (ip : ℕ) → init_resume_label ip s ≡ done tt (labelled s ip)
init_resume_label_run s ip = ground arith

labelled-IsActive : (s : State) (ip : ℕ) (xs : List ℕ) → IsActive s xs → IsActive (labelled s ip) xs
labelled-IsActive s ip xs v = record { chain = v.chain; each = v.each; distinct = v.distinct }

pub prompt_is_active-true : (s : State) (p : ℕ) → ActiveAt s p → prompt_is_active p s ≡ done true s
unfolding prompt_is_active
prompt_is_active-true s p at = ground arith

pub prompt_is_suspended-true :
    (s : State) (p : ℕ) (xs : List ℕ) → IsSuspended s p xs → prompt_is_suspended p s ≡ done true s
unfolding prompt_is_active
prompt_is_suspended-true s p xs v = ground arith

pub exec_yield_fun_run :
    (s : State) (fuel ret p : ℕ) (xs : List ℕ)
    → IsSuspended s p xs
    → exec_yield_fun fuel ret p s
      ≡ exec_kind fuel p (s.returns ret).kind (s.returns ret).fun (s.returns ret).arg s
unfolding exec_yield_fun
exec_yield_fun_run s fuel ret p xs w =
    rw (check-done (prompt_is_suspended p) s (prompt_is_suspended-true s p xs w), exec_yield_fun)
      refl

yield_to_run :
    (s : State) (fuel p fun arg res : ℕ) (xs ys : List ℕ)
    → IsActive s (xs ++ p ∷ ys)
    → ReturnsSafely s p
    → length xs < fuel
    → yield_to fuel p fun arg res s
      ≡ done (to_return (s.prompts p).return_point) (yielded_state s p fun arg res)
unfolding yield_to
yield_to_run s fuel p fun arg res xs ys v g l =
    let at = at_middle s p xs ys v in
    let t = labelled s (s.resumes res).jmp.reg_ip in
    let e = s.returns (s.prompts p).return_point in
    let u = yielded_state s p fun arg res in
    rw
      (
        check-done (prompt_is_ancestor fuel p) s (prompt_is_ancestor-true s p xs ys fuel v l),
        check-done (prompt_is_active p) s (prompt_is_active-true s p at),
        init_resume_label_run s (s.resumes res).jmp.reg_ip,
        (prompt_unlink_lem t p res xs ys fuel (labelled-IsActive s _ _ v) l).0,
        yield_to,
        checked_longjmp-done u u.return_label (s.prompts p).sp e.jmp g.ip_guarded g.sp_guarded,
      )
      refl

yielded_state-IsActive :
    (s : State) (p fun arg res : ℕ) (xs ys : List ℕ)
    → IsActive s (xs ++ p ∷ ys)
    → IsActive (yielded_state s p fun arg res) ys
yielded_state-IsActive s p fun arg res xs ys v =
    let t = labelled s (s.resumes res).jmp.reg_ip in
    let w = unlinked-IsActive t p res xs ys (labelled-IsActive s _ _ v) in
    record { chain = w.chain; each = w.each; distinct = w.distinct }

pub yielded_state-IsSuspended :
    (s : State) (p fun arg res : ℕ) (xs ys : List ℕ)
    → IsActive s (xs ++ p ∷ ys)
    → IsSuspended (yielded_state s p fun arg res) p xs
yielded_state-IsSuspended s p fun arg res xs ys v =
    let t = labelled s (s.resumes res).jmp.reg_ip in
    let w = unlinked-IsSuspended t p res xs ys (labelled-IsActive s _ _ v) in
    record {
      chain = w.chain;
      above = w.above;
      ne_null = w.ne_null;
      live = w.live;
      top_ne = w.top_ne;
      distinct = w.distinct;
    }

-- A yield to a prompt of the active chain jumps to the point that the prompt was entered or resumed
-- from. What lands there calls the yielded function with the prompt as its resumption; the prompt
-- has captured the prompts above it, and those below are the active chain.
pub yield_to_lem :
    (s : State) (fuel fuel' p fun arg res : ℕ) (xs ys : List ℕ)
    → IsActive s (xs ++ p ∷ ys)
    → ReturnsSafely s p
    → length xs < fuel
    → let ret = (s.prompts p).return_point in
      let t = yielded_state s p fun arg res in
      (yield_to fuel p fun arg res s ≡ done (to_return ret) t)
      × (exec_yield_fun fuel' ret p t ≡ done (call_yielded fun p arg) t)
      × IsSuspended t p xs
      × IsActive t ys
unfolding exec_yield_fun
yield_to_lem s fuel fuel' p fun arg res xs ys v g l =
    let t = yielded_state s p fun arg res in
    let w = yielded_state-IsSuspended s p fun arg res xs ys v in
    (
      yield_to_run s fuel p fun arg res xs ys v g l,
      exec_yield_fun_run t fuel' (s.prompts p).return_point p xs w
          ∙ ap (λ r. exec_kind fuel' p r.kind r.fun r.arg t)
              (write_self s.returns (s.prompts p).return_point
                (record (s.returns (s.prompts p).return_point) {
                  fun = fun;
                  arg = arg;
                  kind = yielded;
                })),
      w,
      yielded_state-IsActive s p fun arg res xs ys v,
    )

-- A yield over a return point whose stack pointer is not the recorded one ends the program.
pub yield_to_tampered :
    (s : State) (fuel p fun arg res sp : ℕ) (xs ys : List ℕ)
    → IsActive s (xs ++ p ∷ ys)
    → (s.prompts p).sp ≡ guard s.cookie sp
    → (s.returns (s.prompts p).return_point).jmp.reg_sp ≢ sp
    → length xs < fuel
    → yield_to fuel p fun arg res s ≡ fatal efault
unfolding yield_to
yield_to_tampered s fuel p fun arg res sp xs ys v g h l =
    let at = at_middle s p xs ys v in
    let t = labelled s (s.resumes res).jmp.reg_ip in
    let e = s.returns (s.prompts p).return_point in
    let u = yielded_state s p fun arg res in
    rw
      (
        check-done (prompt_is_ancestor fuel p) s (prompt_is_ancestor-true s p xs ys fuel v l),
        check-done (prompt_is_active p) s (prompt_is_active-true s p at),
        init_resume_label_run s (s.resumes res).jmp.reg_ip,
        (prompt_unlink_lem t p res xs ys fuel (labelled-IsActive s _ _ v) l).0,
        yield_to,
        ap (λ a. checked_longjmp u.return_label a e.jmp u) g
            ∙ checked_longjmp-fatal u u.return_label sp e.jmp h,
      )
      refl
