-- ===== src/Transport/Disposer.antt =====
-- DeferredDisposer and countDiagnostics of apps/web/lib/client/lsp-transport.ts.
use smart_c_playground.Prelude.{
  flag, ℕ, ◌+◌, ◌≡◌, refl, Bool, true, false, Option, none, some, List, [], ◌∷◌, ◌++◌, arith,
  if◌then◌else◌, length, length-append, All,
}
use smart_c_playground.Text.{Text, codes, text_eq}

-- The timer holds the function that it will call, by its identity.
pub record Disposer : Type 0 where
  pub dispose_timer : Option ℕ
  pub disposed : Bool

pub data Outcome : Type 0 where
  nothing : Outcome
  called : (dispose : ℕ) → Outcome
  thrown : Outcome

unfoldable pub acquire : Disposer → Disposer × Outcome
acquire d = if d.disposed then (d, thrown) else (record d { dispose_timer = none }, nothing)

pub release_on : Disposer → ℕ → Option ℕ → Disposer
release_on d dispose none = if d.disposed then d else record d { dispose_timer = some dispose }
release_on d dispose (some pending) = d

unfoldable pub release : Disposer → ℕ → Disposer
unfolding release_on
release d dispose = release_on d dispose d.dispose_timer

pub fire_on : Disposer → Option ℕ → Disposer × Outcome
fire_on d none = (d, nothing)
fire_on d (some dispose) = (record d { dispose_timer = none; disposed = true }, called dispose)

-- The macrotask of the timer.
unfoldable pub fire : Disposer → Disposer × Outcome
unfolding fire_on
fire d = fire_on d d.dispose_timer

unfoldable pub new_disposer : Disposer
new_disposer = record { dispose_timer = none; disposed = false }

pub data Use : Type 0 where
  acquires : Use
  releases : (dispose : ℕ) → Use
  fires : Use

unfoldable pub step : Disposer → Use → Disposer × Outcome
unfolding acquire release fire
step d acquires = acquire d
step d (releases dispose) = (release d dispose, nothing)
step d fires = fire d

abbrev pub calls_of : Outcome → List ℕ
calls_of nothing = []
calls_of (called dispose) = dispose ∷ []
calls_of thrown = []

-- Uses one after the other, and the functions that they call.
unfoldable pub run : Disposer → List Use → Disposer × List ℕ
run d [] = (d, [])
run d (u ∷ us) =
    let (next, outcome) = step d u in
    let (last, more) = run next us in (last, calls_of outcome ++ more)

-- A disposer that is done has no timer.
abbrev IsValid : Disposer → Type 0
IsValid d = d.disposed ≡ true → d.dispose_timer ≡ none

abbrev Counts : Disposer → Disposer × List ℕ → Type 0
Counts d r = IsValid r.0 × (length r.1 + flag d.disposed ≡ flag r.0.disposed)

fire_on-Counts :
    (d : Disposer) (timer : Option ℕ)
    → (d.disposed ≡ true → timer ≡ none)
    → d.dispose_timer ≡ timer
    → Counts d ((fire_on d timer).0, calls_of (fire_on d timer).1)
unfolding fire_on
fire_on-Counts d none h e = (λ _. e, omega arith)
fire_on-Counts d (some dispose) h e = ground arith

release_on-IsValid :
    (d : Disposer) (dispose : ℕ) (timer : Option ℕ)
    → IsValid d
    → Counts d (release_on d dispose timer, [])
unfolding release_on
release_on-IsValid d dispose none v = ground arith
release_on-IsValid d dispose (some pending) v = ground arith

step-Counts : (d : Disposer) (u : Use) → IsValid d → Counts d ((step d u).0, calls_of (step d u).1)
unfolding step acquire release fire
step-Counts d acquires v = ground arith
step-Counts d (releases dispose) v = release_on-IsValid d dispose d.dispose_timer v
step-Counts d fires v = fire_on-Counts d d.dispose_timer v refl

run-Counts : (d : Disposer) (us : List Use) → IsValid d → Counts d (run d us)
unfolding run
run-Counts d [] v = (v, omega arith)
run-Counts d (u ∷ us) v =
    let a = step-Counts d u v in
    let r = step d u in
    let b = run-Counts r.0 us a.0 in
    (b.0, omega (arith, a.1, b.1, length-append (calls_of r.1) (run r.0 us).1))

abbrev pub IsNoRelease : Use → Type 0
IsNoRelease acquires = Unit
IsNoRelease (releases dispose) = ⊥
IsNoRelease fires = Unit

abbrev IsIdle : Disposer → Type 0
IsIdle d = (d.dispose_timer ≡ none) × (d.disposed ≡ false)

step-IsIdle :
    (d : Disposer) (u : Use)
    → IsIdle d
    → IsNoRelease u
    → IsIdle (step d u).0 × (calls_of (step d u).1 ≡ [])
unfolding step acquire fire fire_on
step-IsIdle d acquires i n = ground arith
step-IsIdle d (releases dispose) i n = absurd n
step-IsIdle d fires i n = ground arith

run-idle : (d : Disposer) (us : List Use) → IsIdle d → All IsNoRelease us → (run d us).1 ≡ []
unfolding run
run-idle d [] i n = refl
run-idle d (u ∷ us) i n = let a = step-IsIdle d u i n.0 in rw a.1 (run-idle (step d u).0 us a.0 n.1)

acquire-IsIdle : (d : Disposer) → d.disposed ≡ false → IsIdle (acquire d).0
unfolding acquire
acquire-IsIdle d h = ground arith

-- A disposer that is not released calls nothing, and one that is calls its function at most once.
pub run-disposals :
    (before : List Use)
    → let d = (run new_disposer before).0 in
      (length (run new_disposer before).1 ≡ flag d.disposed)
      × (d.disposed ≡ false
          → (later : List Use) → All IsNoRelease later
          → (run (acquire d).0 later).1 ≡ [])
unfolding new_disposer
run-disposals before =
    let d = (run new_disposer before).0 in
    let c = run-Counts new_disposer before (λ _. refl) in
    (omega (arith, c.1), λ h later n. run-idle (acquire d).0 later (acquire-IsIdle d h) n)

-- The severities that are counted.
unfoldable pub count_diagnostics : List Text → ℕ × ℕ
count_diagnostics [] = (0, 0)
count_diagnostics (severity ∷ rest) =
    let (errors, warnings) = count_diagnostics rest in
    (
      (if text_eq severity (codes "error") then errors + 1 else errors),
      (if text_eq severity (codes "error")
          then warnings
          else if text_eq severity (codes "warning")
          then warnings + 1
          else warnings),
    )
