-- ===== src/Client/Connection/Attempts.antt =====
-- The attempts of connectLsp in apps/web/components/playground.tsx come to an end.
use smart_c_playground.Prelude.{
  ℕ, zero, suc, ◌+◌, ◌-◌, ◌≤◌, ◌≡◌, ◌⊎◌, inl, inr, true, false, arith, ltb, if_cases, ◌<◌, ◌==◌,
  ==_iff, Bool-cases, subst, sym,
}
use smart_c_playground.Client.Connection.{
  Ending, session_at, cancelled_at, unavailable_at, out_of_fuel, Connecting, World, connect_lsp,
}

-- The attempts before one have failed.
abbrev pub Failed : World → ℕ → Type 0
Failed w attempt = (earlier : ℕ) → earlier < attempt → w.succeeds earlier ≡ false

-- How a run of the attempts may end: with a session, cancelled, or unavailable after three failures.
abbrev pub Ends : World → Ending → Type 0
Ends w (session_at attempt) =
    (attempt ≤ 2) × (w.succeeds attempt ≡ true) × (w.cancelled attempt ≡ false) × Failed w attempt
Ends w (cancelled_at attempt) =
    (attempt ≤ 2) × ((w.cancelled attempt ≡ true) ⊎ (w.cancelled_in_wait attempt ≡ true))
Ends w (unavailable_at attempt) = (attempt ≡ 2) × Failed w 3
Ends w out_of_fuel = ⊥

Failed-next :
    (w : World) (attempt : ℕ)
    → Failed w attempt
    → w.succeeds attempt ≡ false
    → Failed w (attempt + 1)
Failed-next w attempt before now earlier h = elim (Bool-cases (earlier == attempt)) [
  | inl same ↦ subst (λ (n : ℕ). w.succeeds n ≡ false) (sym ((==_iff earlier attempt).0 same)) now
  | inr other ↦ before earlier (ground (arith, other, h))
]

abbrev pub EndsWithin : World → ℕ → Connecting → Type 0
EndsWithin w most c = Ends w c.ending × (c.requests ≤ most)

connect-Ends :
    (fuel : ℕ) (w : World) (attempt : ℕ)
    → attempt ≤ 2
    → Failed w attempt
    → 3 ≤ fuel + attempt
    → EndsWithin w (3 - attempt) (connect_lsp fuel w attempt)
unfolding connect_lsp
connect-Ends zero w attempt a b f = absurd (omega (arith, a, f))
connect-Ends (suc fuel) w attempt a b f =
    let P = EndsWithin w (3 - attempt) in
    if_cases P (w.cancelled attempt) (λ c. ((a, inl c), omega (arith, a)))
      (λ c.
        if_cases P (w.succeeds attempt) (λ s. ((a, s, c, b), omega (arith, a)))
          (λ s.
            if_cases P (ltb attempt 2)
              (λ l.
                if_cases P (w.cancelled_in_wait attempt) (λ i. ((a, inr i), omega (arith, a)))
                  (λ _.
                    let rest =
                      connect-Ends fuel w (attempt + 1) (ground (arith, l))
                        (Failed-next w attempt b s) (omega (arith, f)) in
                    (rest.0, omega (arith, rest.1, a))))
              (λ l.
                let last : attempt ≡ 2 = ground (arith, l, a) in
                (
                  (last, subst (Failed w) (omega (arith, last)) (Failed-next w attempt b s)),
                  omega (arith, a),
                ))))

-- `connect_lsp` with fuel for three attempts never runs out of it, whatever succeeds, fails or is
-- cancelled: it makes at most three requests and ends with a session at the first attempt that
-- succeeds and is not cancelled, or cancelled, or unavailable after all three have failed.
pub connect_lsp-Ends : (w : World) → EndsWithin w 3 (connect_lsp 3 w 0)
connect_lsp-Ends w =
    connect-Ends 3 w 0 (omega arith) (λ earlier h. absurd (omega (arith, h))) (omega arith)
