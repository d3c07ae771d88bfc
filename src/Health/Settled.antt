-- ===== src/Health/Settled.antt =====
-- The probe of apps/lsp/src/health.ts settles once, by what happens first.
use smart_c_playground.Prelude.{◌≡◌, refl, sym, ap, ◌∙◌, Bool, true, false, List, [], ◌∷◌, if_cases}
use mathlib.Core.Bool.{false≢true}
use smart_c_playground.Health.{
  Probe, started, finish, ProbeEvent, times_out, fails, exits, is_zero, observe, observe_all,
}

-- Ready means that the process has exited with the code 0.
abbrev pub is_success : ProbeEvent → Bool
is_success times_out = false
is_success fails = false
is_success (exits code) = is_zero code

finish-settled : (p : Probe) (ready : Bool) → p.settled ≡ true → finish p ready ≡ p
unfolding finish
finish-settled p ready s =
    if_cases (λ (q : Probe). q ≡ p) p.settled (λ _. refl) (λ f. absurd (false≢true (sym f ∙ s)))

observe-settled :
    (p : Probe) (event : ProbeEvent) → p.settled ≡ true → p.timer ≡ false → observe p event ≡ p
unfolding observe
observe-settled p times_out s t =
    if_cases (λ (q : Probe). q ≡ p) p.timer (λ f. absurd (false≢true (sym t ∙ f))) (λ _. refl)
observe-settled p fails s t = finish-settled p false s
observe-settled p (exits code) s t = finish-settled p (is_zero code) s

settled-observe_all :
    (p : Probe) (events : List ProbeEvent)
    → p.settled ≡ true
    → p.timer ≡ false
    → (observe_all p events).result ≡ p.result
unfolding observe_all
settled-observe_all p [] s t = refl
settled-observe_all p (event ∷ events) s t =
    ap (λ (q : Probe). (observe_all q events).result) (observe-settled p event s t)
    ∙ settled-observe_all p events s t

-- The first event alone decides, and a process that is stopped by the timer is not ready.
pub started-observe_all :
    (event : ProbeEvent) (events : List ProbeEvent)
    → (observe_all started (event ∷ events)).result ≡ is_success event ∷ []
unfolding observe_all observe finish started
started-observe_all times_out events =
    settled-observe_all
      (record { settled = true; timer = false; killed = true; result = false ∷ [] }) events refl
      refl
started-observe_all fails events =
    settled-observe_all
      (record { settled = true; timer = false; killed = false; result = false ∷ [] }) events refl
      refl
started-observe_all (exits code) events =
    settled-observe_all
      (record { settled = true; timer = false; killed = false; result = is_zero code ∷ [] }) events
      refl refl
