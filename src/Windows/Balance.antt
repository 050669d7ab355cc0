-- ===== src/Windows/Balance.antt =====
-- What a stack on Windows takes from the system or from a pool is given back.
use libmprompt.Base.{
  ℕ, ◌+◌, ◌-◌, ◌*◌, ◌≡◌, ◌≢◌, refl, sym, Bool, true, false, Option, some, none, List, [], ◌∷◌,
  arith, ◌||◌, inl, inr, Bool-cases, if◌then◌else◌, ◌==◌,
}
use libmprompt.Util.{align_up}
use libmprompt.Os.{Os}
use libmprompt.Mmap.{Area, OsStack}
use libmprompt.Windows.{
  Release, release, decommit, to_pool, committed_stack, initial_commit, win_os_alloc, win_os_free,
}

-- The memory that a stack at `full` holds, as what gives it back.
abbrev pub holds : Os → (full : ℕ) → Release
holds os full = if os.use_gpools then to_pool full else release full

-- The memory that an allocation is given, if any.
abbrev pub obtained : Os → (reserved : ℕ) → (pooled : Option (ℕ × ℕ)) → List Release
obtained os reserved none = if os.use_gpools || reserved == 0 then [] else release reserved ∷ []
obtained os reserved (some (p, size)) =
    if os.use_gpools then to_pool p ∷ [] else if reserved == 0 then [] else release reserved ∷ []

-- An allocation that fails has given back all that it was given; one that succeeds has given back
-- nothing, and what `mp_gstack_os_free` does with its stack ends with giving back all that it was given.
abbrev pub IsBalanced : Os → List Release → Option OsStack × List Release → Type 0
IsBalanced os got (none, back) = back ≡ got
IsBalanced os got (some s, back) =
    (back ≡ [])
    × (win_os_free os s.full s.stk s.stk_size ≡ (
        if os.use_gpools
        then decommit (record { start = s.stk; size = align_up s.stk_size os.page_size }) ∷ got
        else got))

committed_stack-IsBalanced :
    (os : Os) (full stk stk_size : ℕ) (commit : Option ℕ)
    → full ≢ 0
    → IsBalanced os
        (holds os full ∷ [])
        (committed_stack os full stk stk_size commit (holds os full))
unfolding committed_stack win_os_free
committed_stack-IsBalanced os full stk stk_size none h = refl
committed_stack-IsBalanced os full stk stk_size (some commit) h = (refl, ground arith)

module _ (os : Os) (guaranteed reserved : ℕ) (commits guards : Area → Bool) where
  alloc_pool :
      (p size : ℕ)
      → os.use_gpools ≡ true
      → win_os_alloc os guaranteed reserved (some (p, size)) commits guards
        ≡ committed_stack os p p size
            (initial_commit os guaranteed p size commits guards)
            (holds os p)
  unfolding win_os_alloc
  alloc_pool p size u = rw (u, win_os_alloc) refl

  alloc_own :
      (pooled : Option (ℕ × ℕ))
      → os.use_gpools ≡ false
      → reserved ≢ 0
      → let stk = reserved + os.gstack_gap in
        let size = os.gstack_size - 2 * os.gstack_gap in
        win_os_alloc os guaranteed reserved pooled commits guards
        ≡ committed_stack os reserved stk size
            (initial_commit os guaranteed stk size commits guards)
            (holds os reserved)
  unfolding win_os_alloc
  alloc_own pooled u h =
      let ne : (reserved == 0) ≡ false = ground arith in rw (u, win_os_alloc, ne) refl

  -- Nothing is given.
  alloc_nothing :
      (pooled : Option (ℕ × ℕ))
      → obtained os reserved pooled ≡ []
      → win_os_alloc os guaranteed reserved pooled commits guards ≡ (none, [])
  unfolding win_os_alloc
  alloc_nothing none e = ground arith
  alloc_nothing (some (p, size)) e = ground arith

  IsBalanced-given :
      (pooled : Option (ℕ × ℕ)) (full stk stk_size : ℕ) (commit : Option ℕ)
      → full ≢ 0
      → obtained os reserved pooled ≡ holds os full ∷ []
      → win_os_alloc os guaranteed reserved pooled commits guards
        ≡ committed_stack os full stk stk_size commit (holds os full)
      → IsBalanced os
          (obtained os reserved pooled)
          (win_os_alloc os guaranteed reserved pooled commits guards)
  IsBalanced-given pooled full stk stk_size commit h e f =
      rw (e, f) (committed_stack-IsBalanced os full stk stk_size commit h)

  IsBalanced-nothing :
      (pooled : Option (ℕ × ℕ))
      → obtained os reserved pooled ≡ []
      → IsBalanced os
          (obtained os reserved pooled)
          (win_os_alloc os guaranteed reserved pooled commits guards)
  IsBalanced-nothing pooled e = rw (alloc_nothing pooled e) (sym e)

  IsBalanced-own :
      (pooled : Option (ℕ × ℕ))
      → os.use_gpools ≡ false
      → reserved ≢ 0
      → obtained os reserved pooled ≡ holds os reserved ∷ []
      → IsBalanced os
          (obtained os reserved pooled)
          (win_os_alloc os guaranteed reserved pooled commits guards)
  IsBalanced-own pooled u ne e =
      let stk = reserved + os.gstack_gap in
      let size = os.gstack_size - 2 * os.gstack_gap in
      IsBalanced-given pooled reserved stk size
        (initial_commit os guaranteed stk size commits guards) ne e (alloc_own pooled u ne)

  -- An allocation gives back all the memory that it was given, if it fails, and nothing if it succeeds;
  -- then what `mp_gstack_os_free` does with its stack is to give back all of it, in a pool after the
  -- stack is decommitted. No pool gives the address 0.
  pub win_os_alloc_lem :
      (pooled : Option (ℕ × ℕ))
      → ((size : ℕ) → pooled ≢ some (0, size))
      → IsBalanced os
          (obtained os reserved pooled)
          (win_os_alloc os guaranteed reserved pooled commits guards)
  win_os_alloc_lem none h = elim (Bool-cases (os.use_gpools || reserved == 0)) [
    | inl e ↦ IsBalanced-nothing none (rw e refl)
    | inr e ↦ IsBalanced-own none (ground (arith, e)) (ground (arith, e)) (ground (arith, e))
  ]
  win_os_alloc_lem (some (p, size)) h = elim (Bool-cases os.use_gpools) [
    | inl u ↦
        IsBalanced-given (some (p, size)) p p size
          (initial_commit os guaranteed p size commits guards) (λ z. h size (rw z refl)) (rw u refl)
          (alloc_pool p size u)
    | inr u ↦ elim (Bool-cases (reserved == 0)) [
      | inl e ↦ IsBalanced-nothing (some (p, size)) (rw (u, e) refl)
      | inr e ↦ IsBalanced-own (some (p, size)) u (ground arith) (rw (u, e) refl)
    ]
  ]
