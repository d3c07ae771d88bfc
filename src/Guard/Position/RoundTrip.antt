-- ===== src/Guard/Position/RoundTrip.antt =====
-- The offset found is the position asked for: counting back from it gives the line and character.
use smart_c_playground.Prelude.{
  subst, ℕ, zero, suc, ◌+◌, ◌≤◌, ◌≡◌, refl, inl, inr, true, false, Option, some, [], ◌∷◌, arith,
  ◌==◌, if◌then◌else◌, ◌>>=◌, length, take, >>=-eq-some, Bool-cases,
}
use mathlib.Core.Option.{some_inj}
use smart_c_playground.Text.{Text}
use smart_c_playground.Json.{Json, as_object, as_safe_natural, prop}
use smart_c_playground.Guard.Position.{newline, position_to_offset}
use smart_c_playground.Guard.Position.Reference.{first_line, locate, offset_at-eq-locate}

pub newlines : Text → ℕ
newlines [] = 0
newlines (a ∷ s) = (if a == newline then 1 else 0) + newlines s

-- The units since the last newline, where `before` stand in front of the text.
column_from : ℕ → Text → ℕ
column_from before [] = before
column_from before (a ∷ s) = column_from (if a == newline then 0 else suc before) s

pub column : Text → ℕ
unfolding column_from
column s = column_from 0 s

first_line-take :
    (s : Text) (c before : ℕ)
    → c ≤ first_line s
    → (newlines (take c s) ≡ 0) × (column_from before (take c s) ≡ before + c) × (c ≤ length s)
unfolding first_line newlines column_from
first_line-take s zero before h = (refl, omega arith, omega arith)
first_line-take [] (suc c) before h = absurd (omega arith)
first_line-take (a ∷ s) (suc c) before h = ground (arith, first_line-take s c (suc before))

-- The prefix of length o ends on the line, at the character.
abbrev Ends : Text → (line c o before : ℕ) → Type 0
Ends s line c o before =
    (newlines (take o s) ≡ line)
    × (column_from before (take o s) ≡ (if line == 0 then before + c else c))
    × (o ≤ length s)

Ends-newline :
    (a : ℕ) (s : Text) (line c o before : ℕ)
    → (a == newline) ≡ true
    → Ends s line c o 0
    → Ends (a ∷ s) (suc line) c (suc o) before
unfolding newlines column_from
Ends-newline a s line c o before stop (l, k, i) = rw stop (omega arith, ground arith, omega arith)

Ends-other :
    (a : ℕ) (s : Text) (line c o before : ℕ)
    → (a == newline) ≡ false
    → Ends s (suc line) c o (suc before)
    → Ends (a ∷ s) (suc line) c (suc o) before
unfolding newlines column_from
Ends-other a s line c o before go (l, k, i) = rw go (omega arith, ground arith, omega arith)

locate-Ends : (s : Text) (line c o before : ℕ) → locate s line c ≡ some o → Ends s line c o before
unfolding locate
locate-Ends s zero c o before e = ground (arith, first_line-take s c before)
locate-Ends [] (suc line) c o before e = ground arith
locate-Ends (a ∷ s) (suc line) c o before e = elim (Bool-cases (a == newline)) [
  | inl stop ↦
      let (p, f, g) = >>=-eq-some (locate s line c) (λ i. some (suc i)) (rw stop at e) in
      subst (λ x. Ends (a ∷ s) (suc line) c x before) (some_inj.0 g)
        (Ends-newline a s line c p before stop (locate-Ends s line c p 0 f))
  | inr go ↦
      let (p, f, g) = >>=-eq-some (locate s (suc line) c) (λ i. some (suc i)) (rw go at e) in
      subst (λ x. Ends (a ∷ s) (suc line) c x before) (some_inj.0 g)
        (Ends-other a s line c p before go (locate-Ends s (suc line) c p (suc before) f))
]

-- If `position_to_offset` gives an offset, it lies in the text, and the position's line is the
-- number of newlines before it and its character the number of units since the last of them.
pub position_to_offset_roundtrip :
    (s : Text) (raw : Option Json) (o : ℕ)
    → position_to_offset s raw ≡ some o
    → (o ≤ length s)
      × (as_safe_natural (as_object raw >>= λ p. prop p "line") ≡ some (newlines (take o s)))
      × (as_safe_natural (as_object raw >>= λ p. prop p "character") ≡ some (column (take o s)))
unfolding position_to_offset column
position_to_offset_roundtrip s raw o e =
    let (position, p, ep) = >>=-eq-some (as_object raw) _ e in
    let (line, l, el) = >>=-eq-some (as_safe_natural (prop position "line")) _ ep in
    let (character, c, ec) = >>=-eq-some (as_safe_natural (prop position "character")) _ el in
    let found : locate s line character ≡ some o = rw offset_at-eq-locate at ec in
    let (lines, columns, inside) = locate-Ends s line character o 0 found in
    (inside, rw (p, l, lines), rw (p, c) (ground arith))
