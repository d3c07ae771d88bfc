-- ===== src/Examples/Texts.antt =====
-- Positions, edits and encodings of short texts.
use smart_c_playground.Prelude.{ℕ, ◌≡◌, refl, [], ◌∷◌}
use smart_c_playground.Text.Decimal.{digits, decimal}
use smart_c_playground.Text.{Text, codes}
use smart_c_playground.Json.{pos, Json, num, str, obj, end, field}
use smart_c_playground.Guard.Position.{offset_at}
use smart_c_playground.Guard.Position.Reference.{locate, offset_at-eq-locate}

-- Two lines.
abbrev two_lines : Text
two_lines = 97 ∷ 10 ∷ 98 ∷ 99 ∷ []

abbrev position : ℕ → ℕ → Json
position line character =
    obj
      (field (codes "line") (num (pos line)) (field (codes "character") (num (pos character)) end))

-- It replaces the second line by "x".
abbrev change : Json
change = obj (
    field (codes "range")
      (obj (field (codes "start") (position 1 0) (field (codes "end") (position 1 2) end)))
      (field (codes "text") (str (120 ∷ [])) end))

offset_at-eq-locate_example : offset_at two_lines 1 1 ≡ locate two_lines 1 1
offset_at-eq-locate_example = offset_at-eq-locate two_lines 1 1

decimal_128 : decimal 128 ≡ codes "128"
unfolding digits codes
decimal_128 = refl
