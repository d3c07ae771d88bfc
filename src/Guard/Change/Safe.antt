-- ===== src/Guard/Change/Safe.antt =====
-- What an edit that is applied has done.
use smart_c_playground.Prelude.{
  subst, ℕ, ◌+◌, ◌-◌, ◌≤◌, ◌≡◌, ◌≢◌, refl, inl, inr, Bool, true, false, not, ◌||◌, Option, none,
  some, List, [], ◌∷◌, ◌++◌, arith, ltb, if◌then◌else◌, >>=-eq-some, take, drop, length,
  Option-cases, length-append, length-take, length-drop,
}
use mathlib.Core.Option.{some_inj}
use smart_c_playground.Text.{Text, includes, byte_length}
use smart_c_playground.Json.{Json, Fields, as_object, as_string, prop}
use smart_c_playground.Guard.Position.{position_to_offset}
use smart_c_playground.Guard.Change.{
  is_safe_document_text, splice, replace_range, next_text, apply_document_change,
  apply_document_changes, allows_range_length,
}

-- A text that clangd may be given: no NUL, and within the limit.
abbrev pub IsSafe : ℕ → Text → Type 0
IsSafe limit text = (includes text 0 ≡ false) × (byte_length text ≤ limit)

pub is_safe_document_text-IsSafe :
    (text : Text) (limit : ℕ) → is_safe_document_text text limit ≡ true → IsSafe limit text
unfolding is_safe_document_text
is_safe_document_text-IsSafe text limit h = ground arith

-- How one change makes the next text out of the current one.
pub data Edit (current : Text) (change : Fields) : Text → Type 0 where
  whole :
      {text : Text}
      → prop change "range" ≡ none
      → as_string (prop change "text") ≡ some text
      → Edit current change text
  part :
      {next : Text} (text : Text) (range : Fields) (start end : ℕ)
      → as_string (prop change "text") ≡ some text
      → as_object (prop change "range") ≡ some range
      → position_to_offset current (prop range "start") ≡ some start
      → position_to_offset current (prop range "end") ≡ some end
      → start ≤ end
      → next ≡ splice current start end text
      → Edit current change next

replace_range-Edit :
    (current : Text) (change range : Fields) (text next : Text)
    → as_string (prop change "text") ≡ some text
    → as_object (prop change "range") ≡ some range
    → replace_range current change range text ≡ some next
    → Edit current change next
unfolding replace_range
replace_range-Edit current change range text next t r e =
    let (start, s, e₁) = >>=-eq-some (position_to_offset current (prop range "start")) _ e in
    let (end, f, e₂) = >>=-eq-some (position_to_offset current (prop range "end")) _ e₁ in
    let (h, same) =
      accepted_range current start end text next (allows_range_length (prop change "rangeLength"))
        e₂ in
    part text range start end t r s f h same
  where
    accepted_range :
        (current : Text) (start end : ℕ) (text next : Text) (given : Bool)
        → (if ltb end start || not given then none else some (splice current start end text))
          ≡ some next
        → (start ≤ end) × (next ≡ splice current start end text)
    accepted_range current start end text next given e = (ground arith, ground arith)

next_text-Edit :
    (current : Text) (change : Fields) (given : Option Json) (text next : Text)
    → prop change "range" ≡ given
    → as_string (prop change "text") ≡ some text
    → next_text current change given text ≡ some next
    → Edit current change next
unfolding next_text
next_text-Edit current change none text next g t e =
    whole g (subst (λ x. as_string (prop change "text") ≡ some x) (some_inj.0 e) t)
next_text-Edit current change (some raw) text next g t e =
    let (range, r, e₁) = >>=-eq-some (as_object (some raw)) _ e in
    replace_range-Edit current change range text next t (rw g r) e₁

IsSafe-or_none :
    (text next : Text) (limit : ℕ)
    → (if is_safe_document_text text limit then some text else none) ≡ some next
    → (text ≡ next) × IsSafe limit next
IsSafe-or_none text next limit e =
    let same : text ≡ next = ground arith in
    (same, is_safe_document_text-IsSafe next limit (ground arith))

-- If `apply_document_change` gives a text, the change is an object, the text is its own text or the
-- current one with an ordered range between two positions replaced, and it has no NUL and is within
-- the byte limit.
pub apply_document_change-Edit :
    (current : Text) (change : Json) (limit : ℕ) (next : Text)
    → apply_document_change current change limit ≡ some next
    → (fields : Fields) × (as_object (some change) ≡ some fields)
      × Edit current fields next
      × IsSafe limit next
unfolding apply_document_change
apply_document_change-Edit current change limit next e =
    let (fields, f, e₁) = >>=-eq-some (as_object (some change)) _ e in
    let (text, t, e₂) = >>=-eq-some (as_string (prop fields "text")) _ e₁ in
    let (made, m, e₃) =
      >>=-eq-some
        (if includes text 0 then none else next_text current fields (prop fields "range") text)
        (λ n. if is_safe_document_text n limit then some n else none) e₂ in
    let (same, safe) = IsSafe-or_none made next limit e₃ in
    let made_next = unless_null (includes text 0) _ made m in
    (
      fields,
      f,
      subst (Edit current fields) same (next_text-Edit current fields _ text made refl t made_next),
      safe,
    )
  where
    unless_null :
        (b : Bool) (o : Option Text) (x : Text) → (if b then none else o) ≡ some x → o ≡ some x
    unless_null b o x h = ground arith

-- A splice has the length that it says, when its ends lie in the text.
pub length-splice :
    (current : Text) (start end : ℕ) (text : Text)
    → start ≤ end
    → end ≤ length current
    → length (splice current start end text) + (end - start) ≡ length current + length text
unfolding splice
length-splice current start end text h k = omega (
  arith,
  length-append (take start current) (text ++ drop end current),
  length-append text (drop end current),
  length-take start current,
  length-drop end current,
)

apply_document_changes-IsSafe :
    (current : Text) (changes : List Json) (limit : ℕ) (next : Text)
    → IsSafe limit current
    → apply_document_changes current changes limit ≡ some next
    → IsSafe limit next
unfolding apply_document_changes
apply_document_changes-IsSafe current [] limit next h e = subst (IsSafe limit) (some_inj.0 e) h
apply_document_changes-IsSafe current (change ∷ changes) limit next h e =
    elim (Option-cases (apply_document_change current change limit)) [
      | inl f ↦ ground arith
      | inr (made, f) ↦
          apply_document_changes-IsSafe made changes limit next
            (apply_document_change-Edit current change limit made f).3
            (rw (f, apply_document_changes) at e)
    ]

-- If `apply_document_changes` of one change or more gives a text, that has no NUL and is within the
-- byte limit, whatever the text was before.
pub apply_document_changes-IsSafe_nonempty :
    (current : Text) (changes : List Json) (limit : ℕ) (next : Text)
    → changes ≢ []
    → apply_document_changes current changes limit ≡ some next
    → IsSafe limit next
unfolding apply_document_changes
apply_document_changes-IsSafe_nonempty current [] limit next h e = absurd (h refl)
apply_document_changes-IsSafe_nonempty current (change ∷ changes) limit next h e =
    elim (Option-cases (apply_document_change current change limit)) [
      | inl f ↦ ground arith
      | inr (made, f) ↦
          apply_document_changes-IsSafe made changes limit next
            (apply_document_change-Edit current change limit made f).3
            (rw (f, apply_document_changes) at e)
    ]
