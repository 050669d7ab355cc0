-- ===== src/Mmap/Mach/Start.antt =====
-- The start of the exception thread of src/mprompt/gstack_mmap_mach.c.
use libmprompt.Base.{
  ℕ, ◌≡◌, refl, ap, ◌∙◌, ◌≢◌, Bool, true, false, not, ◌&&◌, ◌||◌, Option, none, some, List, ◌∷◌,
  arith, if◌then◌else◌, ==_refl, Bool-cases, inl, inr,
}
use libmprompt.Os.{Os}
use libmprompt.Mmap.Mach.{Kern, Mach, in_debugger, give_up, mach_process_init, mach_thread_init}

-- The state before the start.
abbrev pub idle : List ℕ → Mach
idle ports = record { exc_port = 0; thread = false; ports = ports }

-- The port that the thread receives from, if all calls succeed.
abbrev pub serving : (debugged right created : Bool) → Option ℕ → Option ℕ
serving debugged right created none = none
serving debugged right created (some p) = if debugged && (right && created) then some p else none

-- The state after the start.
abbrev pub served : List ℕ → Option ℕ → Mach
served ports none = idle ports
served ports (some p) = record { exc_port = p; thread = true; ports = p ∷ ports }

give_up-idle :
    (p : ℕ) (ports : List ℕ)
    → p ≢ 0
    → give_up (record { exc_port = p; thread = false; ports = p ∷ ports }) ≡ idle ports
give_up-idle p ports ne = ground (arith, ==_refl p)

-- The calls after the port is allocated.
last_steps :
    (p : ℕ) (right created : Bool) (ports : List ℕ)
    → p ≢ 0
    → let m : Mach = record { exc_port = p; thread = false; ports = p ∷ ports } in
      (if not right
        then give_up m
        else if not created
        then give_up m
        else record m { thread = true })
      ≡ served ports (if right && created then some p else none)
last_steps p false created ports ne = give_up-idle p ports ne
last_steps p true false ports ne = give_up-idle p ports ne
last_steps p true true ports ne = refl

start_run :
    (k : Kern) (flags port : Option ℕ) (right created : Bool) (os : Os) (ports : List ℕ)
    → port ≢ some 0
    → mach_process_init k flags port right created os (idle ports) ≡ (
      record os { use_gpools = in_debugger k flags || os.use_gpools },
      served ports (serving (in_debugger k flags) right created port),
    )
unfolding mach_process_init
start_run k flags none right created os ports ne = elim (Bool-cases (in_debugger k flags)) [
  | inl e ↦ rw (mach_process_init, e) refl
  | inr e ↦ rw (mach_process_init, e) refl
]
start_run k flags (some p) right created os ports ne =
    let real : p ≢ 0 = λ z. ne (ap some z) in
    elim (Bool-cases (in_debugger k flags)) [
      | inl e ↦
          rw (mach_process_init, e)
            (ap (λ m. (record os { use_gpools = true }, m)) (last_steps p right created ports real))
      | inr e ↦ rw (mach_process_init, e) refl
    ]

serving-real :
    (debugged right created : Bool) (port : Option ℕ)
    → port ≢ some 0
    → serving debugged right created port ≢ some 0
serving-real debugged right created none ne = cc
serving-real true true true (some p) ne = ne
serving-real true true false (some p) ne = cc
serving-real true false created (some p) ne = cc
serving-real false right created (some p) ne = cc

-- The port of a thread's faults.
abbrev pub faults_to : (ok : Bool) → (current : Option ℕ) → Option ℕ → Option ℕ
faults_to ok current none = current
faults_to ok current (some q) = if ok then some q else current

thread_run :
    (ok : Bool) (ports : List ℕ) (current q : Option ℕ)
    → q ≢ some 0
    → mach_thread_init ok (served ports q) current ≡ faults_to ok current q
unfolding mach_thread_init
thread_run ok ports current none ne = refl
thread_run ok ports current (some q) ne = let real : q ≢ 0 = λ z. ne (ap some z) in ground arith

-- Under a debugger, and if every call succeeds, the thread runs and receives from a port that the
-- process holds. Whichever call fails, no port is left allocated and none is recorded. Under a
-- debugger the pools are used in either case. A thread of the program then sends its faults to the
-- port exactly if the exception thread serves it and the system accepts it; else its setting stays.
mach_init_lem :
    (k : Kern) (flags port : Option ℕ) (right created ok : Bool) (os : Os) (ports : List ℕ)
    (current : Option ℕ)
    → port ≢ some 0
    → let r = mach_process_init k flags port right created os (idle ports) in
      let p = serving (in_debugger k flags) right created port in
      (r.1 ≡ served ports p)
      × (r.0.use_gpools ≡ (in_debugger k flags || os.use_gpools))
      × (mach_thread_init ok r.1 current ≡ faults_to ok current p)
mach_init_lem k flags port right created ok os ports current ne =
    let e = start_run k flags port right created os ports ne in
    let q = serving (in_debugger k flags) right created port in
    (
      ap (λ r. r.1) e,
      ap (λ r. r.0.use_gpools) e,
      ap (λ r. mach_thread_init ok r.1 current) e
          ∙ thread_run ok ports current q
              (serving-real (in_debugger k flags) right created port ne),
    )
