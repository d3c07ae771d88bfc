-- ===== src/Guard/Position/Reference.antt =====
-- The search for an offset against a definition that walks the text once.
use smart_c_playground.Prelude.{
  ℕ, zero, suc, ◌+◌, ◌-◌, ◌≤◌, ◌≡◌, refl, sym, ◌∙◌, inl, inr, Bool, true, ◌&&◌, ◌||◌, Option, none,
  some, [], ◌∷◌, arith, ltb, ◌==◌, if◌then◌else◌, ◌>>=◌, get_or, length, drop, Option-cases,
  Bool-cases, length-drop,
}
use native.Mathlib.Nat.{zero-add, suc-add}
use smart_c_playground.Text.{Text, index_of}
use smart_c_playground.Guard.Position.{
  newline, index_of_from, unit_is, line_start, line_end, offset_at,
}

-- The units of the first line, without its line break.
abbrev ends : Text → Bool
ends [] = true
ends (a ∷ s) = a == newline

unfoldable pub first_line : Text → ℕ
first_line [] = 0
first_line (a ∷ s) =
    let rest = first_line s in if a == newline || a == 13 && ends s then 0 else suc rest

-- The offset of a line and a character, in one walk.
unfoldable pub locate : Text → ℕ → ℕ → Option ℕ
unfolding first_line
locate s zero character = if ltb (first_line s) character then none else some character
locate [] (suc line) character = none
locate (a ∷ s) (suc line) character =
    locate s (if a == newline then line else suc line) character >>= λ i. some (suc i)

drop-nil : (n : ℕ) → drop {A = ℕ} n [] ≡ []
drop-nil zero = refl
drop-nil (suc n) = refl

drop-add : (a b : ℕ) (s : Text) → drop (a + b) s ≡ drop b (drop a s)
drop-add zero b s = rw zero-add
drop-add (suc a) b [] = drop-nil (suc a + b) ∙ sym (drop-nil b)
drop-add (suc a) b (x ∷ s) = rw suc-add (drop-add a b s)

unit_is-drop : (start i u : ℕ) (s : Text) → unit_is s (start + i) u ≡ unit_is (drop start s) i u
unfolding unit_is
unit_is-drop zero i u s = rw zero-add
unit_is-drop (suc start) i u [] = refl
unit_is-drop (suc start) i u (x ∷ s) = rw suc-add (unit_is-drop start i u s)

-- Where the line after n newlines begins.
skip : ℕ → Text → Option ℕ
skip zero s = some 0
skip (suc n) [] = none
skip (suc n) (a ∷ s) = skip (if a == newline then n else suc n) s >>= λ i. some (suc i)

-- Where the first newline stands, or the end.
break_at : Text → ℕ
break_at [] = 0
break_at (a ∷ s) = if a == newline then 0 else suc (break_at s)

get_or-index_of : (s : Text) → get_or (index_of s newline) (length s) ≡ break_at s
unfolding index_of break_at
get_or-index_of [] = refl
get_or-index_of (a ∷ s) = ground (arith, get_or-index_of s)

-- The end of a line without its carriage return.
trim : Text → ℕ → ℕ
trim s zero = 0
trim s (suc e) = if unit_is s e 13 then e else suc e

trim-eq :
    (s : Text) (start e : ℕ)
    → (if ltb start (start + e) && unit_is s (start + e - 1) 13 then start + e - 1 else start + e)
      ≡ start + trim (drop start s) e
unfolding trim
trim-eq s start zero = ground arith
trim-eq s start (suc e) =
    let same : start + suc e - 1 ≡ start + e = omega arith in
    rw (same, unit_is-drop start e 13 s) (ground arith)

trim-cons : (a : ℕ) (s : Text) (e : ℕ) → trim (a ∷ s) (suc (suc e)) ≡ suc (trim s (suc e))
unfolding trim unit_is
trim-cons a s e = ground arith

trim-break_at : (s : Text) → trim s (break_at s) ≡ first_line s
unfolding trim first_line break_at unit_is
trim-break_at [] = refl
trim-break_at (a ∷ []) = ground arith
trim-break_at (a ∷ b ∷ s) = elim (Bool-cases (b == newline)) [
  | inl stop ↦ rw stop (ground arith)
  | inr go ↦
      let e : break_at (b ∷ s) ≡ suc (break_at s) = rw go in
      ground (arith, trim-cons a (b ∷ s) (break_at s), trim-break_at (b ∷ s))
]

index_of-length :
    (s : Text) (start : ℕ)
    → start ≤ length s
    → get_or (index_of_from s newline start) (length s) ≡ start + break_at (drop start s)
unfolding index_of_from
index_of-length s start h = ground (arith, get_or-index_of (drop start s), length-drop start s)

line_end-eq :
    (s : Text) (start : ℕ) → start ≤ length s → line_end s start ≡ start + first_line (drop start s)
unfolding line_end
line_end-eq s start h = rw (
  index_of-length s start h,
  trim-eq s start (break_at (drop start s)),
  trim-break_at (drop start s),
)

-- The lines before the target, found by searching, are those that the walk passes.
skip_step :
    (n : ℕ) (s : Text)
    → (index_of s newline >>= λ i. skip n (drop (suc i) s) >>= λ j. some (suc i + j))
      ≡ skip (suc n) s
unfolding index_of skip
skip_step n [] = refl
skip_step n (a ∷ s) = elim (Bool-cases (a == newline)) [
  | inl stop ↦ rw stop (ground arith)
  | inr go ↦ rw go (elim (Option-cases (index_of s newline)) [
    | inl e ↦ rw e (rw (← skip_step n s, e))
    | inr (i, e) ↦ rw e (rw (← skip_step n s, e) (ground arith))
  ])
]

line_start-eq :
    (n : ℕ) (s : Text) (start : ℕ)
    → line_start n s start ≡ (skip n (drop start s) >>= λ i. some (start + i))
unfolding line_start skip index_of_from
line_start-eq zero s start = ground arith
line_start-eq (suc n) s start = elim (Option-cases (index_of (drop start s) newline)) [
  | inl e ↦ rw (← skip_step n (drop start s), e, line_start, index_of_from) refl
  | inr (i, e) ↦
      rw (← skip_step n (drop start s), e, line_start, index_of_from)
        (rw (line_start-eq n s (start + i + 1)) (shift i))
]
  where
    shift :
        (i : ℕ)
        → (skip n (drop (start + i + 1) s) >>= λ j. some (start + i + 1 + j)) ≡ (
            skip n (drop (suc i) (drop start s)) >>= (λ j. some (suc i + j)) >>= λ j.
            some (start + j))
    shift i =
        let same : start + i + 1 ≡ start + suc i = omega arith in
        rw (same, drop-add start (suc i) s) (ground arith)

skip-le : (n : ℕ) (s : Text) (i : ℕ) → skip n s ≡ some i → i ≤ length s
unfolding skip
skip-le zero s i e = ground arith
skip-le (suc n) [] i e = ground arith
skip-le (suc n) (a ∷ s) i e = elim (Option-cases (skip (if a == newline then n else suc n) s)) [
  | inl f ↦ ground arith
  | inr (j, f) ↦ ground (arith, skip-le (if a == newline then n else suc n) s j f)
]

-- What both do with the start of the line.
abbrev finish : Text → ℕ → Option ℕ → Option ℕ
finish s c o = o >>= λ i. if ltb (first_line (drop i s)) c then none else some (i + c)

finish-suc :
    (a : ℕ) (s : Text) (c : ℕ) (o : Option ℕ)
    → (finish s c o >>= λ i. some (suc i)) ≡ finish (a ∷ s) c (o >>= λ i. some (suc i))
finish-suc a s c none = refl
finish-suc a s c (some i) = ground arith

locate-eq : (s : Text) (n c : ℕ) → locate s n c ≡ finish s c (skip n s)
unfolding locate skip
locate-eq s zero c = ground arith
locate-eq [] (suc n) c = refl
locate-eq (a ∷ s) (suc n) c =
    rw (locate-eq s (if a == newline then n else suc n) c)
      (finish-suc a s c (skip (if a == newline then n else suc n) s))

-- For every text, line and character, the search by `indexOf` for the start and the end of the line
-- finds the offset that a single walk over the text finds, and none where that finds none.
pub offset_at-eq-locate :
    (s : Text) (line character : ℕ) → offset_at s line character ≡ locate s line character
unfolding offset_at
offset_at-eq-locate s line character =
    rw (line_start-eq line s 0) (elim (Option-cases (skip line s)) [
      | inl e ↦ rw (e, locate-eq s line character, e)
      | inr (i, e) ↦
          rw (e, locate-eq s line character, e)
            (ground (arith, line_end-eq s i (skip-le line s i e)))
    ])
