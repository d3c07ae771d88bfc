-- ===== src/Validation.antt =====
-- apps/web/lib/server/validation.ts: the checks of the public API.
pub mod Agreement
pub mod Accepted
pub mod Requests
use smart_c_playground.Prelude.{
  ℕ, ◌+◌, Bool, true, false, not, ◌&&◌, ◌||◌, Option, none, some, ◌>>=◌, List, [], ◌∷◌, ◌++◌,
  String, ltb, leb, ◌==◌, if◌then◌else◌, length,
}
use smart_c_playground.Text.{Text, codes, text_eq, includes, has, byte_length}
use smart_c_playground.Json.{Json, Fields, as_array, prop}
use smart_c_playground.Contracts.{
  SourceFile, TerminalSize, source_max_bytes, source_file_max_count, as_record, as_integer_within,
  to_lower_case, main_c, valid_name, content_of,
}

-- ValidationResult
pub data Validation {ℓ} (A : Type ℓ) : Type ℓ where
  value : A → Validation A
  error : String → Validation A

-- ExecutionRequest
pub record ExecutionRequest : Type 0 where
  pub files : List SourceFile
  pub terminal : TerminalSize

-- A file's content, where it is a string without a NUL character.
pub nul_free : Json → Option Text
nul_free file = do content ← content_of file; if includes content 0 then none else some content

-- The loop of validateFiles and what follows it.
pub validate_rest :
    List Json
    → (names : List Text) → (total_bytes : ℕ) → (validated : List SourceFile)
    → Validation (List SourceFile)
unfolding nul_free
validate_rest [] names total_bytes validated =
    if not (has names main_c)
    then error "main.cは削除できません。"
    else if ltb source_max_bytes total_bytes
    then error "全ファイルの合計は64KiB以内にしてください。"
    else value validated
validate_rest (file ∷ files) names total_bytes validated = elim (valid_name file) [
  | none ↦ error "ファイル名は英数字、ハイフン、アンダースコアを使った.cまたは.hにしてください。"
  | some name ↦ elim (nul_free file) [
    | none ↦ error "ファイル内容にはNUL文字を含まない文字列を指定してください。"
    | some content ↦
        let rest =
          validate_rest files (names ++ to_lower_case name ∷ []) (total_bytes + byte_length content)
            (validated ++ record { name = name; content = content } ∷ []) in
        if has names (to_lower_case name) then error "同じファイル名を複数指定できません。" else rest
  ]
]

unfoldable pub validate_files : Option Json → Validation (List SourceFile)
unfolding validate_rest
validate_files files = elim (as_array files) [
  | none ↦ error "filesにはファイルの配列を指定してください。"
  | some list ↦
      if length list == 0 || ltb source_file_max_count (length list)
      then error "ファイル数は1から16件にしてください。"
      else validate_rest list [] 0 []
]

-- validateLspSessionRequest
pub validate_lsp_session_request : Option Json → Validation (List SourceFile)
unfolding validate_files
validate_lsp_session_request request = elim (as_record request) [
  | none ↦ error "リクエスト本文はオブジェクトにしてください。"
  | some fields ↦ validate_files (prop fields "files")
]

-- The checks of validateExecutionRequest after the files.
pub validate_terminal : List SourceFile → Option Json → Validation ExecutionRequest
unfolding as_integer_within
validate_terminal files terminal = elim (as_record terminal) [
  | none ↦ error "terminalには端末サイズを指定してください。"
  | some fields ↦ elim (as_integer_within 20 240 (prop fields "cols")) [
    | none ↦ error "terminal.colsは20から240の整数にしてください。"
    | some cols ↦ elim (as_integer_within 5 80 (prop fields "rows")) [
      | none ↦ error "terminal.rowsは5から80の整数にしてください。"
      | some rows ↦ value (record { files = files; terminal = record { cols = cols; rows = rows } })
    ]
  ]
]

abbrev pub then_validate {ℓ κ} :
    {A : Type ℓ} {B : Type κ} → Validation A → (A → Validation B) → Validation B
then_validate (value x) next = next x
then_validate (error e) next = error e

pub validate_execution_request : Option Json → Validation ExecutionRequest
unfolding validate_files validate_terminal
validate_execution_request request = elim (as_record request) [
  | none ↦ error "リクエスト本文はオブジェクトにしてください。"
  | some fields ↦
      then_validate (validate_files (prop fields "files"))
        (λ files. validate_terminal files (prop fields "terminal"))
]
