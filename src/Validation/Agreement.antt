-- ===== src/Validation/Agreement.antt =====
-- The two implementations of the source file check agree: apps/web/lib/server/validation.ts in the web
-- service and packages/contracts/src/index.ts in the LSP service.
use smart_c_playground.Prelude.{
  ℕ, ◌+◌, ◌<◌, ◌≡◌, refl, inl, inr, Bool, true, false, Option, List, [], ◌∷◌, ◌++◌, arith, if_cases,
  Option-cases,
}
use smart_c_playground.Text.{Text, has, byte_length}
use smart_c_playground.Json.{Json, as_array}
use smart_c_playground.Contracts.{
  SourceFile, source_max_bytes, is_valid_source, to_lower_case, valid_name, content_of, are_valid,
  is_valid_source_files,
}
use smart_c_playground.Validation.{
  Validation, value, error, nul_free, validate_rest, validate_files,
}

-- Whether there is a value.
pub accepts {ℓ} : {A : Type ℓ} → Validation A → Bool
accepts (value x) = true
accepts (error e) = false

too_large :
    (files : List Json) (names : List Text) (total : ℕ) (validated : List SourceFile)
    → source_max_bytes < total
    → accepts (validate_rest files names total validated) ≡ false
unfolding validate_rest accepts
too_large [] names total validated h = ground arith
too_large (file ∷ files) names total validated h = elim (Option-cases (valid_name file)) [
  | inl e ↦ rw (e, validate_rest) refl
  | inr (name, e) ↦ elim (Option-cases (nul_free file)) [
    | inl f ↦ rw (e, f, validate_rest) refl
    | inr (content, f) ↦
        rw (e, f, validate_rest)
          (if_cases (λ (v : Validation (List SourceFile)). accepts v ≡ false)
            (has names (to_lower_case name)) (λ _. refl)
            (λ _.
              too_large files (names ++ to_lower_case name ∷ []) (total + byte_length content)
                (validated ++ record { name = name; content = content } ∷ []) (omega arith)))
  ]
]

rest_agrees :
    (files : List Json) (names : List Text) (total : ℕ) (validated : List SourceFile)
    → accepts (validate_rest files names total validated) ≡ are_valid files names total
unfolding validate_rest are_valid accepts nul_free is_valid_source
rest_agrees [] names total validated = ground arith
rest_agrees (file ∷ files) names total validated = elim (Option-cases (valid_name file)) [
  | inl e ↦ rw (e, validate_rest, are_valid) refl
  | inr (name, e) ↦ elim (Option-cases (content_of file)) [
    | inl f ↦ rw (e, f, validate_rest, are_valid, nul_free) refl
    | inr (content, f) ↦
        rw (e, f, validate_rest, are_valid, nul_free)
          (ground (
            arith,
            rest_agrees files (names ++ to_lower_case name ∷ []) (total + byte_length content)
                (validated ++ record { name = name; content = content } ∷ []),
            too_large files (names ++ to_lower_case name ∷ []) (total + byte_length content)
                (validated ++ record { name = name; content = content } ∷ []),
          ))
  ]
]

-- For any JSON value or none, `validate_files` of the web service gives a value exactly when
-- `is_valid_source_files` of the contracts, which the LSP service uses, is true.
pub validate_files-is_valid_source_files :
    (files : Option Json) → accepts (validate_files files) ≡ is_valid_source_files files
unfolding validate_files is_valid_source_files accepts
validate_files-is_valid_source_files files = elim (Option-cases (as_array files)) [
  | inl e ↦ rw (e, validate_files, is_valid_source_files) refl
  | inr (list, e) ↦
      rw (e, validate_files, is_valid_source_files) (ground (arith, rest_agrees list [] 0 []))
]
