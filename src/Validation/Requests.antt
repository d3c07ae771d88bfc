-- ===== src/Validation/Requests.antt =====
-- What apps/web/lib/server/validation.ts has checked of the requests it accepts.
use mathlib.Core.Option.{some_inj}
use smart_c_playground.Prelude.{
  ℕ, ◌≤◌, ◌≡◌, refl, subst, inl, inr, ◌&&◌, Option, none, some, List, String, arith, leb,
  Option-cases, Bool-cases, none≢some,
}
use smart_c_playground.Json.{Json, null, bool, num, str, arr, obj, pos, negsuc, fraction, prop}
use smart_c_playground.Contracts.{SourceFile, as_record, as_integer_within}
use smart_c_playground.Validation.{
  Validation, value, error, ExecutionRequest, validate_files, validate_lsp_session_request,
  validate_terminal, then_validate, validate_execution_request,
}
use smart_c_playground.Validation.Accepted.{AreSafe, validate_files-AreSafe}

abbrev pub IsWithin : ℕ → ℕ → ℕ → Type 0
IsWithin low high n = (low ≤ n) × (n ≤ high)

as_integer_within-IsWithin :
    (low high : ℕ) (v : Option Json) (n : ℕ)
    → as_integer_within low high v ≡ some n
    → IsWithin low high n
unfolding as_integer_within
as_integer_within-IsWithin low high (some (num (pos m))) n h =
    elim (Bool-cases (leb low m && leb m high)) [
      | inl e ↦
          let same = some_inj.0 (rw e at h) in subst (IsWithin low high) same (ground (arith, e))
      | inr e ↦ absurd (none≢some (rw e at h))
    ]
as_integer_within-IsWithin low high (some (num (negsuc m))) n h = absurd (none≢some h)
as_integer_within-IsWithin low high (some (num fraction)) n h = absurd (none≢some h)
as_integer_within-IsWithin low high (some null) n h = absurd (none≢some h)
as_integer_within-IsWithin low high (some (bool b)) n h = absurd (none≢some h)
as_integer_within-IsWithin low high (some (str s)) n h = absurd (none≢some h)
as_integer_within-IsWithin low high (some (arr vs)) n h = absurd (none≢some h)
as_integer_within-IsWithin low high (some (obj fs)) n h = absurd (none≢some h)
as_integer_within-IsWithin low high none n h = absurd (none≢some h)

error≢value {ℓ} : {A : Type ℓ} {e : String} {a : A} → error e ≡ value a → ⊥
error≢value q = cc

value_inj {ℓ} : {A : Type ℓ} {a b : A} → value a ≡ value b → a ≡ b
value_inj q = cc

then_validate-value {ℓ κ} :
    {A : Type ℓ} {B : Type κ} (v : Validation A) (next : A → Validation B) {b : B}
    → then_validate v next ≡ value b
    → (a : A) × (v ≡ value a) × (next a ≡ value b)
then_validate-value (value a) next h = (a, refl, h)
then_validate-value (error e) next h = absurd (error≢value h)

pub validate_lsp_session_request-AreSafe :
    (request : Option Json) (files : List SourceFile)
    → validate_lsp_session_request request ≡ value files
    → AreSafe files
unfolding validate_lsp_session_request
validate_lsp_session_request-AreSafe request files h = elim (Option-cases (as_record request)) [
  | inl e ↦ absurd (error≢value (rw (e, validate_lsp_session_request) at h))
  | inr (fields, e) ↦
      validate_files-AreSafe (prop fields "files") files (rw (e, validate_lsp_session_request) at h)
]

-- A request that may be run: its files may be written, and its terminal has a size within the bounds.
abbrev pub IsSafeRequest : ExecutionRequest → Type 0
IsSafeRequest request =
    AreSafe request.files
    × IsWithin 20 240 request.terminal.cols
    × IsWithin 5 80 request.terminal.rows

validate_terminal-IsSafe :
    (files : List SourceFile) (terminal : Option Json) (out : ExecutionRequest)
    → AreSafe files
    → validate_terminal files terminal ≡ value out
    → IsSafeRequest out
unfolding validate_terminal
validate_terminal-IsSafe files terminal out safe h = elim (Option-cases (as_record terminal)) [
  | inl e ↦ absurd (error≢value (rw (e, validate_terminal) at h))
  | inr (fields, e) ↦ elim (Option-cases (as_integer_within 20 240 (prop fields "cols"))) [
    | inl f ↦ absurd (error≢value (rw (e, f, validate_terminal) at h))
    | inr (cols, f) ↦ elim (Option-cases (as_integer_within 5 80 (prop fields "rows"))) [
      | inl g ↦ absurd (error≢value (rw (e, f, g, validate_terminal) at h))
      | inr (rows, g) ↦ subst IsSafeRequest (value_inj (rw (e, f, g, validate_terminal) at h)) (
        safe,
        as_integer_within-IsWithin 20 240 (prop fields "cols") cols f,
        as_integer_within-IsWithin 5 80 (prop fields "rows") rows g,
      )
    ]
  ]
]

pub validate_execution_request-IsSafeRequest :
    (request : Option Json) (out : ExecutionRequest)
    → validate_execution_request request ≡ value out
    → IsSafeRequest out
unfolding validate_execution_request
validate_execution_request-IsSafeRequest request out h = elim (Option-cases (as_record request)) [
  | inl e ↦ absurd (error≢value (rw (e, validate_execution_request) at h))
  | inr (fields, e) ↦
      let (files, f, g) =
        then_validate-value (validate_files (prop fields "files"))
          (λ files. validate_terminal files (prop fields "terminal"))
          (rw (e, validate_execution_request) at h) in
      validate_terminal-IsSafe files (prop fields "terminal") out
        (validate_files-AreSafe (prop fields "files") files f) g
]
