-- ===== src/Effect/Cpp/Finally.antt =====
-- `mpe_finally` of src/mpeff/mpeff.c, built as C++: how often the finally function runs.
use mathlib.Core.Path.{ap₂}
use libmprompt.Base.{
  ◌⊎◌, inl, inr, refl, ℕ, ◌≡◌, ap, ◌∙◌, ◌≢◌, true, false, arith, ◌==◌, write, ==_refl,
}
use libmprompt.Effect.State.{State, Frame}
use libmprompt.Effect.Cpp.{
  Exn, Ran, Code, Calls, returned, thrown, and_then, catching, release, throw, leave_frame,
  with_frame, finally_around, ◌>>=◌, pure,
}
use libmprompt.Effect.Cpp.Unwind.{protecting, frame_of, pushed, with_frame_thrown}

with_frame_returned :
    {W A : Type 0} (f : ℕ) (r : Frame) (body : Code W A) (s t : State) (w w' : W) (x : A)
    → s.frame_top ≢ f
    → body
        (record s { frames = write s.frames f (record r { parent = s.frame_top }); frame_top = f })
        w
      ≡ returned x t w'
    → t.frame_top ≡ f
    → (t.frames f).parent ≡ s.frame_top
    → with_frame f r body s w ≡ returned x (record t { frame_top = s.frame_top }) w'
unfolding with_frame leave_frame
with_frame_returned f r body s t w w' x ne run top parent =
    let first : (s.frame_top == f) ≡ false = ground arith in
    let last : (t.frame_top == f) ≡ true = ground arith in
    rw (with_frame, first, run, leave_frame, last, parent) (ground arith)

-- How code ends when no assertion fails.
abbrev pub ending : {W : Type 0} → ℕ ⊎ Exn → State → W → Ran W ℕ
ending (inl x) s w = returned x s w
ending (inr e) s w = thrown e s w

module _ {W : Type 0} (calls : Calls W) (f local fun : ℕ) (body : Code W ℕ) (s t : State) (w w' : W)
    (ne : s.frame_top ≢ f) (top : t.frame_top ≡ f)
    (same : t.frames f ≡ (pushed (protecting f local fun) s).frames f) where
  -- The state when the frame is left.
  left : State
  left = record t { frame_top = s.frame_top }

  released :
      (v : W) (r : Ran W (Unit {0}))
      → calls.releasefun fun local left v ≡ r
      → release calls f left v ≡ r
  unfolding left
  released v r e =
      let fun_same : (t.frames f).fun ≡ fun = ap (λ r. r.fun) same ∙ rw (==_refl f) in
      let local_same : (t.frames f).local ≡ local = ap (λ r. r.local) same ∙ rw (==_refl f) in
      ap₂ (λ a b. calls.releasefun a b left v) fun_same local_same ∙ e

  -- What is left to do when the code has returned.
  rest : ℕ → Ran W (Unit {0}) → Ran W ℕ
  rest x r = catching (and_then r (λ u. pure x)) (λ e. release calls f >>= λ u. throw e)

  after_return :
      (x : ℕ)
      → body (pushed (protecting f local fun) s) w ≡ returned x t w'
      → finally_around calls f local fun body s w ≡ rest x (release calls f left w')
  unfolding finally_around left rest
  after_return x run =
      let parent = ap (λ r. r.parent) same ∙ rw (==_refl f) in
      let closed =
        with_frame_returned f (frame_of (protecting f local fun) s) body s t w w' x ne run top
          parent in
      rw (finally_around, closed) refl

  after_throw :
      (e : Exn)
      → body (pushed (protecting f local fun) s) w ≡ thrown e t w'
      → finally_around calls f local fun body s w
        ≡ and_then (release calls f left w') (λ u. throw e)
  unfolding finally_around left
  after_throw e run =
      let parent = ap (λ r. r.parent) same ∙ rw (==_refl f) in
      let closed =
        with_frame_thrown f (frame_of (protecting f local fun) s) body s t w w' e ne run top
          parent in
      rw (finally_around, closed) refl

  -- The code of a call returns or throws with the call's own frame on top and unchanged, and the finally
  -- function returns when it is called, with the call's arguments, in the state that the code left but for
  -- that frame, which has been taken off. The call ends as the code did, in the state in which that
  -- one call of the finally function ended.
  pub finally_once :
      (o : ℕ ⊎ Exn) (u : State) (v : W)
      → body (pushed (protecting f local fun) s) w ≡ ending o t w'
      → calls.releasefun fun local (record t { frame_top = s.frame_top }) w' ≡ returned tt u v
      → finally_around calls f local fun body s w ≡ ending o u v
  unfolding rest left
  finally_once (inl x) u v run releases =
      after_return x run ∙ ap (rest x) (released w' (returned tt u v) releases)
  finally_once (inr e) u v run releases =
      after_throw e run
      ∙ ap (λ r. and_then r (λ i. throw e)) (released w' (returned tt u v) releases)

  -- A finally function that throws, after code that returned, runs a second time.
  pub finally_twice :
      (rel : ℕ → ℕ → W → W) (x : ℕ) (e : Exn)
      → ((u : State) (v : W) → calls.releasefun fun local u v ≡ thrown e u (rel fun local v))
      → body (pushed (protecting f local fun) s) w ≡ returned x t w'
      → finally_around calls f local fun body s w
        ≡ thrown e (record t { frame_top = s.frame_top }) (rel fun local (rel fun local w'))
  unfolding rest left
  finally_twice rel x e throws run =
      let v = rel fun local w' in
      after_return x run
      ∙ ap (rest x) (released w' (thrown e left v) (throws left w'))
      ∙ ap (λ r. and_then r (λ u. throw e))
          (released v (thrown e left (rel fun local v)) (throws left v))
