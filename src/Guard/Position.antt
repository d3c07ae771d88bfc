-- ===== src/Guard/Position.antt =====
-- positionToOffset of apps/lsp/src/json-rpc-guard.ts: from a line and a character to an offset in
-- the text, both counted in UTF-16 units.
pub mod Reference
pub mod RoundTrip
use smart_c_playground.Prelude.{
  ℕ, zero, suc, ◌+◌, ◌-◌, Bool, true, false, ◌&&◌, Option, none, some, List, [], ◌∷◌, ltb, ◌==◌,
  if◌then◌else◌, ◌>>=◌, get_or, length, drop,
}
use smart_c_playground.Text.{Text, index_of}
use smart_c_playground.Json.{Json, as_object, as_safe_natural, prop}

abbrev pub newline : ℕ
newline = 10

-- text.indexOf(u, start)
index_of_from : Text → ℕ → ℕ → Option ℕ
index_of_from text u start = index_of (drop start text) u >>= λ i. some (start + i)

-- text.charCodeAt(i) === u, false beyond the end
unit_is : Text → ℕ → ℕ → Bool
unit_is [] i u = false
unit_is (a ∷ s) zero u = a == u
unit_is (a ∷ s) (suc i) u = unit_is s i u

-- The loop over the lines before the target, which recurs on how many are left.
line_start : ℕ → Text → ℕ → Option ℕ
line_start zero text start = some start
line_start (suc lines) text start = elim (index_of_from text newline start) [
  | none ↦ none
  | some found ↦ line_start lines text (found + 1)
]

-- A carriage return before the newline is no part of the line.
line_end : Text → ℕ → ℕ
line_end text start =
    let end = get_or (index_of_from text newline start) (length text) in
    if ltb start end && unit_is text (end - 1) 13 then end - 1 else end

-- The body of positionToOffset after its checks.
pub offset_at : Text → ℕ → ℕ → Option ℕ
unfolding line_start line_end index_of_from index_of unit_is
offset_at text line character = do
  start ← line_start line text 0
  if ltb (line_end text start - start) character then none else some (start + character)

unfoldable pub position_to_offset : Text → Option Json → Option ℕ
unfolding offset_at
position_to_offset text raw_position = do
  position ← as_object raw_position
  line ← as_safe_natural (prop position "line")
  character ← as_safe_natural (prop position "character")
  offset_at text line character
