-- ===== src/Examples/Requests.antt =====
-- Requests to the web service.
use smart_c_playground.Prelude.{true, ◌≡◌, ◌+◌, min, refl, some, List, [], ◌∷◌, arith}
use smart_c_playground.Text.{Text, codes, text_eq, includes, has, byte_length}
use smart_c_playground.Map.{get, set, total}
use smart_c_playground.Json.{Json, str, arr, obj, nil, cons, end, field, prop}
use smart_c_playground.Contracts.{
  SourceFile, is_valid_source_files, valid_name, content_of, to_lower_case,
}
use smart_c_playground.Validation.{validate_files}
use smart_c_playground.Validation.Agreement.{accepts, validate_files-is_valid_source_files}
use smart_c_playground.Validation.Accepted.{AreSafe, validate_files-AreSafe}
use smart_c_playground.RateLimit.{Rule, Entry, Limiter, consume_rate_limit}
use smart_c_playground.RateLimit.Windows.{Request, requests_of, allowed_of, allowed_in_window}
use smart_c_playground.RateLimit.Retry.{retry_after-allowed}

abbrev pub files : Json
files = arr (
    cons
      (obj (
        field (codes "name") (str (codes "main.c"))
          (field (codes "content") (str (codes "int x;")) end)))
      nil)

abbrev pub main_file : SourceFile
main_file = record { name = codes "main.c"; content = codes "int x;" }

validate_files-is_valid_source_files_example :
    accepts (validate_files (some files)) ≡ is_valid_source_files (some files)
validate_files-is_valid_source_files_example = validate_files-is_valid_source_files (some files)

pub main_file-AreSafe : AreSafe (main_file ∷ [])
unfolding validate_files prop codes text_eq includes has byte_length valid_name content_of
    to_lower_case
main_file-AreSafe = validate_files-AreSafe (some files) (main_file ∷ []) refl

abbrev rule : Text → Rule
rule key = record { key = key; limit = 2; window_ms = 1000 }

abbrev used_once : Entry
used_once = record { count = 1; reset_at = 1000 }

abbrev limiter : Limiter
limiter = record { operation_count = 1; store = (codes "a", used_once) ∷ [] }

abbrev requests : List Request
requests =
    (rule (codes "a"), 10)
    ∷ (rule (codes "b"), 20)
    ∷ (rule (codes "a"), 30)
    ∷ (rule (codes "a"), 40)
    ∷ []

allowed_in_window_example :
    allowed_of (codes "a") limiter requests + min 2 used_once.count
    ≡ min 2 (used_once.count + requests_of (codes "a") requests)
unfolding get codes text_eq
allowed_in_window_example = allowed_in_window (codes "a") 2 requests limiter used_once refl (
  omega arith,
  (λ e. refl),
  (omega arith, (λ e. refl), (omega arith, (λ e. refl), (omega arith, (λ e. refl), tt))),
)

-- Key "a" has used its window up.
abbrev exhausted : Limiter
exhausted = record {
  operation_count = 1;
  store = (codes "a", record { count = 2; reset_at = 1000 }) ∷ [];
}

retry_after-allowed_example :
    (consume_rate_limit
      (consume_rate_limit exhausted (rule (codes "a")) 10).0
      (rule (codes "a"))
      1010).1.allowed
    ≡ true
unfolding consume_rate_limit get set total codes text_eq
retry_after-allowed_example =
    retry_after-allowed exhausted (rule (codes "a")) 10 1010 (omega arith) (refl, tt) (omega arith)
      refl refl (omega arith)
