-- ===== src/Prompt/Roundtrip.antt =====
-- A yield and the resume of what it captured, one after the other: `mp_yield`, `mp_resume`.
use libmprompt.Base.{ℕ, ◌<◌, ◌≡◌, ◌≢◌, inr, List, ◌∷◌, ◌++◌, arith, length, ==_refl, ap, sym, ◌∙◌}
use libmprompt.Util.{guard}
use libmprompt.Prompt.State.{State, done}
use libmprompt.Prompt.Switch.{to_return, to_resume, prompt_resume, yield_to, yield_resumed}
use libmprompt.Prompt.Chain.{IsActive}
use libmprompt.Prompt.Yield.{ReturnsSafely, LabelFits, yielded_state, yield_to_lem}
use libmprompt.Prompt.Resume.{ResumesSafely, resumed_state, prompt_resume_lem}

-- A yielded prompt remembers its resume point.
pub yielded_state-ResumesSafely :
    (s : State) (p fun arg res : ℕ)
    → res ≢ 0
    → LabelFits s.resume_label (guard s.cookie (s.resumes res).jmp.reg_ip)
    → ResumesSafely (yielded_state s p fun arg res) p
yielded_state-ResumesSafely s p fun arg res h l = record {
  sp_guarded = rw (==_refl p) (ground arith);
  ip_guarded = rw (==_refl p) (ground arith);
  yielded = rw (==_refl p) h;
}

-- The yield leaves the places of the return points as they are.
pub yielded_state-jmp :
    (s : State) (p fun arg res ret : ℕ)
    → ((yielded_state s p fun arg res).returns ret).jmp ≡ (s.returns ret).jmp
yielded_state-jmp s p fun arg res ret = ground arith

-- A yield to a prompt of the active chain that is then resumed comes back to the yielding code: the
-- active chain is whole again, in its order, `mp_yield` returns there the value given to the
-- resume, and the prompt now returns to the place of that resume.
pub yield_resume_lem :
    (s : State) (fuel p fun arg res ret value : ℕ) (xs ys : List ℕ)
    → IsActive s (xs ++ p ∷ ys)
    → ReturnsSafely s p
    → length xs < fuel
    → res ≢ 0
    → ret ≢ 0
    → LabelFits s.resume_label (guard s.cookie (s.resumes res).jmp.reg_ip)
    → s.return_label ≡ guard s.cookie (s.returns ret).jmp.reg_ip
    → let t = yielded_state s p fun arg res in
      let u = resumed_state t p value ret in
      (yield_to fuel p fun arg res s ≡ done (to_return (s.prompts p).return_point) t)
      × (prompt_resume p value ret t ≡ done (to_resume res) u)
      × (yield_resumed fuel p res u ≡ done value u)
      × IsActive u (xs ++ p ∷ ys)
      × ReturnsSafely u p
yield_resume_lem s fuel p fun arg res ret value xs ys v g f h k l e =
    let t = yielded_state s p fun arg res in
    let (yields, lands, w, below) = yield_to_lem s fuel fuel p fun arg res xs ys v g f in
    let q : (t.prompts p).resume_point ≡ res = rw (==_refl p) in
    let r =
      prompt_resume_lem t fuel p value ret xs ys k w below v.distinct
        (yielded_state-ResumesSafely s p fun arg res h l)
        (inr (e ∙ ap (λ j. guard s.cookie j.reg_ip) (sym (yielded_state-jmp s p fun arg res ret))))
        f in
    (
      yields,
      r.0 ∙ ap (λ a. done (to_resume a) (resumed_state t p value ret)) q,
      ap (λ a. yield_resumed fuel p a (resumed_state t p value ret)) (sym q) ∙ r.1,
      r.2,
      r.4,
    )
