-- ===== src/Validation/Accepted.antt =====
-- What apps/web/lib/server/validation.ts has checked of the files it accepts.
use mathlib.Core.Option.{some_inj}
use smart_c_playground.Prelude.{
  String, ℕ, ◌+◌, ◌≤◌, ◌≡◌, refl, ap, ◌∙◌, sym, subst, inl, inr, true, false, ◌||◌, Option, none,
  some, List, [], ◌∷◌, ◌++◌, map, arith, ltb, ◌==◌, if◌then◌else◌, length, length-append,
  Option-cases, Bool-cases, All, >>=-eq-some, none≢some,
}
use smart_c_playground.Text.{Text, codes, text_eq, text_eq_iff, has, includes, byte_length}
use smart_c_playground.Json.{Json, as_array, as_string, prop}
use smart_c_playground.Contracts.{
  SourceFile, source_max_bytes, source_file_max_count, to_lower_case, valid_name, content_of,
  main_c, as_record, is_valid_source_file_name, matches_name, matches_stem,
}
use smart_c_playground.Validation.{value, error, nul_free, validate_rest, validate_files}

abbrev pub IsSafeFile : SourceFile → Type 0
IsSafeFile file =
    (is_valid_source_file_name file.name ≡ true)
    × (includes file.name 47 ≡ false)
    × (includes file.content 0 ≡ false)

-- No string comes twice.
abbrev pub Unique : List Text → Type 0
Unique [] = Unit
Unique (s ∷ ss) = (has ss s ≡ false) × Unique ss

abbrev pub lower_names : List SourceFile → List Text
lower_names files = map (λ file. to_lower_case file.name) files

unfoldable pub bytes_of : List SourceFile → ℕ
bytes_of [] = 0
bytes_of (file ∷ files) = byte_length file.content + bytes_of files

-- Files that may be written into a workspace.
pub record AreSafe (files : List SourceFile) : Type 0 where
  pub some_file : 1 ≤ length files
  pub few : length files ≤ source_file_max_count
  pub each : All IsSafeFile files
  pub unique : Unique (lower_names files)
  pub main : has (lower_names files) main_c ≡ true
  pub small : bytes_of files ≤ source_max_bytes

-- A name that is valid has no slash.
stem_slashless : (s : Text) → matches_stem s ≡ true → includes s 47 ≡ false
unfolding matches_stem includes text_eq codes
stem_slashless [] h = refl
stem_slashless (u ∷ s) h = ground (
  arith,
  stem_slashless s,
  λ (e : text_eq s (codes "c") ≡ true).
      subst (λ t. includes t 47 ≡ false) (sym ((text_eq_iff s (codes "c")).0 e)) refl,
  λ (e : text_eq s (codes "h") ≡ true).
      subst (λ t. includes t 47 ≡ false) (sym ((text_eq_iff s (codes "h")).0 e)) refl,
)

valid-slashless : (name : Text) → is_valid_source_file_name name ≡ true → includes name 47 ≡ false
unfolding is_valid_source_file_name matches_name includes
valid-slashless [] h = refl
valid-slashless (u ∷ s) h = ground (arith, stem_slashless s)

valid_name-facts :
    (file : Json) (name : Text)
    → valid_name file ≡ some name
    → is_valid_source_file_name name ≡ true
unfolding valid_name
valid_name-facts file name e =
    let (fields, f, e₁) = >>=-eq-some (as_record (some file)) _ e in
    let (found, g, e₂) = >>=-eq-some (as_string (prop fields "name")) _ e₁ in checked found e₂
  where
    checked :
        (found : Text)
        → (if is_valid_source_file_name found then some found else none) ≡ some name
        → is_valid_source_file_name name ≡ true
    checked found q = elim (Bool-cases (is_valid_source_file_name found)) [
      | inl good ↦ subst (λ n. is_valid_source_file_name n ≡ true) (some_inj.0 (rw good at q)) good
      | inr bad ↦ absurd (none≢some (rw bad at q))
    ]

nul_free-facts :
    (file : Json) (content : Text) → nul_free file ≡ some content → includes content 0 ≡ false
unfolding nul_free
nul_free-facts file content e =
    let (found, f, e₁) = >>=-eq-some (content_of file) _ e in checked found e₁
  where
    checked :
        (found : Text)
        → (if includes found 0 then none else some found) ≡ some content
        → includes content 0 ≡ false
    checked found q = elim (Bool-cases (includes found 0)) [
      | inl bad ↦ absurd (none≢some (rw bad at q))
      | inr good ↦ subst (λ c. includes c 0 ≡ false) (some_inj.0 (rw good at q)) good
    ]

pub has-append : (ss ts : List Text) (t : Text) → has (ss ++ ts) t ≡ (has ss t || has ts t)
unfolding has
has-append [] ts t = refl
has-append (s ∷ ss) ts t = ground (arith, has-append ss ts t)

-- No string of the second list is in the first.
abbrev pub Fresh : List Text → List Text → Type 0
Fresh names ss = All (λ s. has names s ≡ false) ss

pub Fresh-append :
    (names : List Text) (t : Text) (ss : List Text)
    → Fresh names ss
    → has ss t ≡ false
    → Fresh (names ++ t ∷ []) ss
unfolding has
Fresh-append names t [] f h = tt
Fresh-append names t (s ∷ ss) f h = (
  ground (arith, f.0, h, has-append names (t ∷ []) s, text_eq_iff t s, text_eq_iff s t),
  Fresh-append names t ss f.1 (ground (arith, h)),
)

pub no-Fresh : (ss : List Text) → Fresh [] ss
unfolding has
no-Fresh [] = tt
no-Fresh (s ∷ ss) = (refl, no-Fresh ss)

pub Unique-append :
    (ss : List Text) (t : Text) → Unique ss → has ss t ≡ false → Unique (ss ++ t ∷ [])
unfolding has
Unique-append [] t u h = (refl, tt)
Unique-append (s ∷ ss) t u h = (
  has-append ss (t ∷ []) s ∙ ground (arith, text_eq_iff s t, text_eq_iff t s),
  Unique-append ss t u.1 (ground arith),
)

bytes_of-append :
    (files : List SourceFile) (file : SourceFile)
    → bytes_of (files ++ file ∷ []) ≡ bytes_of files + byte_length file.content
unfolding bytes_of
bytes_of-append [] file = omega arith
bytes_of-append (f ∷ files) file = omega (arith, bytes_of-append files file)

lower_names-append :
    (files : List SourceFile) (file : SourceFile)
    → lower_names (files ++ file ∷ []) ≡ lower_names files ++ to_lower_case file.name ∷ []
lower_names-append [] file = refl
lower_names-append (f ∷ files) file =
    ap (λ ns. to_lower_case f.name ∷ ns) (lower_names-append files file)

All-append :
    (files : List SourceFile) (file : SourceFile)
    → All IsSafeFile files
    → IsSafeFile file
    → All IsSafeFile (files ++ file ∷ [])
All-append [] file a p = (p, tt)
All-append (f ∷ files) file (q, a) p = (q, All-append files file a p)

-- What the loop keeps of the files that it has validated.
record Holds (names : List Text) (total : ℕ) (validated : List SourceFile) : Type 0 where
  names_are : names ≡ lower_names validated
  total_is : total ≡ bytes_of validated
  each : All IsSafeFile validated
  unique : Unique names

record Ends (count : ℕ) (out : List SourceFile) : Type 0 where
  length_is : length out ≡ count
  each : All IsSafeFile out
  unique : Unique (lower_names out)
  main : has (lower_names out) main_c ≡ true
  small : bytes_of out ≤ source_max_bytes

next-Holds :
    (names : List Text) (total : ℕ) (validated : List SourceFile) (file : SourceFile)
    → Holds names total validated
    → IsSafeFile file
    → has names (to_lower_case file.name) ≡ false
    → Holds
        (names ++ to_lower_case file.name ∷ [])
        (total + byte_length file.content)
        (validated ++ file ∷ [])
next-Holds names total validated file h safe fresh = record {
  names_are =
      ap (λ ns. ns ++ to_lower_case file.name ∷ []) h.names_are
      ∙ sym (lower_names-append validated file);
  total_is = omega (arith, h.total_is, bytes_of-append validated file);
  each = All-append validated file h.each safe;
  unique = Unique-append names (to_lower_case file.name) h.unique fresh;
}

error≢value : {e : String} {files : List SourceFile} → error e ≡ value files → ⊥
error≢value q = cc

value_inj : {a b : List SourceFile} → value a ≡ value b → a ≡ b
value_inj q = cc

done-Ends :
    (names : List Text) (total : ℕ) (validated out : List SourceFile)
    → Holds names total validated
    → validate_rest [] names total validated ≡ value out
    → Ends (length validated + 0) out
unfolding validate_rest
done-Ends names total validated out h q = elim (Bool-cases (has names main_c)) [
  | inr missing ↦ absurd (error≢value (rw missing at q))
  | inl there ↦ elim (Bool-cases (ltb source_max_bytes total)) [
    | inl large ↦ absurd (error≢value (rw (there, large) at q))
    | inr small ↦ subst (Ends (length validated + 0)) (value_inj (rw (there, small) at q)) (record {
      length_is = omega arith;
      each = h.each;
      unique = subst Unique h.names_are h.unique;
      main = subst (λ ns. has ns main_c ≡ true) h.names_are there;
      small = ground (arith, h.total_is);
    })
  ]
]

rest-Ends :
    (files : List Json) (names : List Text) (total : ℕ) (validated out : List SourceFile)
    → Holds names total validated
    → validate_rest files names total validated ≡ value out
    → Ends (length validated + length files) out
unfolding validate_rest
rest-Ends [] names total validated out h q = done-Ends names total validated out h q
rest-Ends (file ∷ files) names total validated out h q = elim (Option-cases (valid_name file)) [
  | inl e ↦ absurd (error≢value (rw (e, validate_rest) at q))
  | inr (name, e) ↦ elim (Option-cases (nul_free file)) [
    | inl f ↦ absurd (error≢value (rw (e, f, validate_rest) at q))
    | inr (content, f) ↦ elim (Bool-cases (has names (to_lower_case name))) [
      | inl dup ↦ absurd (error≢value (rw (e, f, dup, validate_rest) at q))
      | inr fresh ↦
          let made : SourceFile = record { name = name; content = content } in
          let good = valid_name-facts file name e in
          subst (λ n. Ends n out) (omega (arith, length-append validated (made ∷ [])))
            (rest-Ends files (names ++ to_lower_case name ∷ []) (total + byte_length content)
              (validated ++ made ∷ []) out
              (next-Holds names total validated made h
                (good, valid-slashless name good, nul_free-facts file content f) fresh)
              (rw (e, f, fresh, validate_rest) at q))
    ]
  ]
]

-- The files of a value that `validate_files` gives are from 1 to 16; each has a valid name, which
-- has no slash, and no NUL in its content; no two names are equal up to case; one of them is
-- main.c; and their contents have at most 64 KiB together.
pub validate_files-AreSafe :
    (files : Option Json) (out : List SourceFile) → validate_files files ≡ value out → AreSafe out
unfolding validate_files bytes_of
validate_files-AreSafe files out q = elim (Option-cases (as_array files)) [
  | inl e ↦ absurd (error≢value (rw (e, validate_files) at q))
  | inr (list, e) ↦ counted list (rw (e, validate_files) at q)
]
  where
    counted :
        (list : List Json)
        → (if length list == 0 || ltb source_file_max_count (length list)
            then error "ファイル数は1から16件にしてください。"
            else validate_rest list [] 0 [])
          ≡ value out
        → AreSafe out
    counted list r =
        elim (Bool-cases (length list == 0 || ltb source_file_max_count (length list))) [
          | inl bad ↦ absurd (error≢value (rw bad at r))
          | inr good ↦
              let h =
                rest-Ends list [] 0 [] out
                  (record { names_are = refl; total_is = refl; each = tt; unique = tt })
                  (rw good at r) in
              record {
                some_file = ground (arith, h.length_is);
                few = ground (arith, h.length_is);
                each = h.each;
                unique = h.unique;
                main = h.main;
                small = h.small;
              }
        ]
