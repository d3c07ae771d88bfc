-- ===== src/Contracts.antt =====
-- packages/contracts/src/index.ts: what a request may hold. A value is a parsed JSON value, where `none`
-- is undefined.
use smart_c_playground.Prelude.{
  ℕ, ◌+◌, ◌*◌, Bool, false, not, ◌&&◌, ◌||◌, Option, none, some, ◌>>=◌, List, [], ◌∷◌, ◌++◌, leb,
  ◌==◌, if◌then◌else◌, length,
}
use smart_c_playground.Text.{Text, codes, text_eq, includes, has, byte_length}
use smart_c_playground.Json.{
  pos, negsuc, fraction, Json, null, bool, num, str, arr, obj, Fields, end, as_array, as_string,
  prop,
}

-- CSourceFile
pub record SourceFile : Type 0 where
  pub name : Text
  pub content : Text

-- TerminalSize
pub record TerminalSize : Type 0 where
  pub cols : ℕ
  pub rows : ℕ

abbrev pub source_max_bytes : ℕ
source_max_bytes = 64 * 1024

abbrev pub source_file_max_count : ℕ
source_file_max_count = 16

abbrev pub source_file_name_max_length : ℕ
source_file_name_max_length = 64

abbrev pub terminal_cols_min : ℕ
terminal_cols_min = 20

abbrev pub terminal_cols_max : ℕ
terminal_cols_max = 240

abbrev pub terminal_rows_min : ℕ
terminal_rows_min = 5

abbrev pub terminal_rows_max : ℕ
terminal_rows_max = 80

-- isRecord, and the named properties: an array is a record too, and has none that the program reads.
abbrev pub as_record : Option Json → Option Fields
as_record (some (obj fields)) = some fields
as_record (some (arr values)) = some end
as_record (some null) = none
as_record (some (bool b)) = none
as_record (some (num n)) = none
as_record (some (str s)) = none
as_record none = none

-- Number.isInteger(v) && v >= low && v <= high, and the value.
unfoldable pub as_integer_within : ℕ → ℕ → Option Json → Option ℕ
as_integer_within low high (some (num (pos n))) = if leb low n && leb n high then some n else none
as_integer_within low high (some (num (negsuc n))) = none
as_integer_within low high (some (num fraction)) = none
as_integer_within low high (some null) = none
as_integer_within low high (some (bool b)) = none
as_integer_within low high (some (str s)) = none
as_integer_within low high (some (arr vs)) = none
as_integer_within low high (some (obj fs)) = none
as_integer_within low high none = none

-- isTerminalSize, and the size. (The bounds are above 0.)
pub as_terminal_size : Option Json → Option TerminalSize
unfolding as_integer_within
as_terminal_size value = do
  fields ← as_record value
  cols ← as_integer_within terminal_cols_min terminal_cols_max (prop fields "cols")
  rows ← as_integer_within terminal_rows_min terminal_rows_max (prop fields "rows")
  some (record { cols = cols; rows = rows })

-- [A-Za-z0-9]
abbrev pub is_alphanumeric : ℕ → Bool
is_alphanumeric u = leb 65 u && leb u 90 || leb 97 u && leb u 122 || leb 48 u && leb u 57

-- [A-Za-z0-9_-]
abbrev pub is_name_unit : ℕ → Bool
is_name_unit u = is_alphanumeric u || u == 95 || u == 45

-- [A-Za-z0-9_-]*\.(?:c|h)$ from a place on. The dot is not in the class, so there is nothing to try
-- twice.
unfoldable pub matches_stem : Text → Bool
matches_stem [] = false
matches_stem (u ∷ rest) =
    let further = matches_stem rest in
    if is_name_unit u
    then further
    else u == 46 && (text_eq rest (codes "c") || text_eq rest (codes "h"))

unfoldable pub matches_name : Text → Bool
unfolding matches_stem
matches_name [] = false
matches_name (u ∷ rest) = is_alphanumeric u && matches_stem rest

-- isValidSourceFileName on a string.
unfoldable pub is_valid_source_file_name : Text → Bool
unfolding matches_name
is_valid_source_file_name name = leb (length name) source_file_name_max_length && matches_name name

-- isValidSource on a string.
unfoldable pub is_valid_source : Text → Bool
is_valid_source source = not (includes source 0) && leb (byte_length source) source_max_bytes

-- name.toLowerCase(), for the names that isValidSourceFileName allows: they are ASCII.
unfoldable pub to_lower_case : Text → Text
to_lower_case [] = []
to_lower_case (u ∷ rest) = (if leb 65 u && leb u 90 then u + 32 else u) ∷ to_lower_case rest

abbrev pub main_c : Text
main_c = codes "main.c"

-- The name of a file, where it is valid.
unfoldable pub valid_name : Json → Option Text
unfolding is_valid_source_file_name
valid_name file = do
  fields ← as_record (some file)
  name ← as_string (prop fields "name")
  if is_valid_source_file_name name then some name else none

-- A property of a file that is a string.
unfoldable pub content_of : Json → Option Text
content_of file = do fields ← as_record (some file); as_string (prop fields "content")

-- The loop of isValidSourceFiles and what follows it.
unfoldable pub are_valid : List Json → (names : List Text) → (total_bytes : ℕ) → Bool
unfolding is_valid_source valid_name content_of to_lower_case
are_valid [] names total_bytes = has names main_c && leb total_bytes source_max_bytes
are_valid (file ∷ files) names total_bytes = elim (valid_name file) [
  | none ↦ false
  | some name ↦ elim (content_of file) [
    | none ↦ false
    | some content ↦
        let rest =
          are_valid files (names ++ to_lower_case name ∷ []) (total_bytes + byte_length content) in
        is_valid_source content && not (has names (to_lower_case name)) && rest
  ]
]

unfoldable pub is_valid_source_files : Option Json → Bool
unfolding are_valid
is_valid_source_files value = elim (as_array value) [
  | none ↦ false
  | some files ↦
      not (length files == 0) && leb (length files) source_file_max_count && are_valid files [] 0
]
