-- ===== src/Text/Decimal.antt =====
-- A number put into a text.
use smart_c_playground.Prelude.{ℕ, zero, suc, ◌+◌, ◌/◌, ◌%◌, ltb, [], ◌∷◌, if◌then◌else◌}
use smart_c_playground.Text.{Text}

-- `${n}`, for n below 10 ^ 20: the digits of n before `rest`.
unfoldable pub digits : (places : ℕ) → ℕ → Text → Text
digits zero n rest = rest
digits (suc places) n rest =
    let higher = digits places (n / 10) ((48 + n % 10) ∷ rest) in
    if ltb n 10 then (48 + n) ∷ rest else higher

abbrev pub decimal : ℕ → Text
decimal n = digits 20 n []
