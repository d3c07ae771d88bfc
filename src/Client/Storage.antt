-- ===== src/Client/Storage.antt =====
-- apps/web/lib/client/storage.ts: what the browser keeps. JSON.parse and JSON.stringify are a codec.
pub mod Saved
use smart_c_playground.Prelude.{
  ℕ, ◌≡◌, Bool, true, false, not, ◌&&◌, ◌||◌, Option, none, some, ◌>>=◌, List, [], ◌∷◌, ◌++◌, ltb,
  leb, ◌==◌, if◌then◌else◌, length,
}
use smart_c_playground.Text.{Text, codes, text_eq, has}
use smart_c_playground.Json.{
  Json, pos, num, str, arr, obj, Items, nil, cons, Fields, end, field, prop, as_array, as_string,
  properties_of,
}
use smart_c_playground.Map.{Map, get, set, delete}
use smart_c_playground.Contracts.{
  SourceFile, source_file_max_count, main_c, to_lower_case, valid_name, content_of,
}

-- PersistedProject
pub record Project : Type 0 where
  pub files : List SourceFile
  pub active_file_name : Text

abbrev pub source_storage_key : Text
source_storage_key = codes "smart-c-playground:v1:source"

abbrev pub project_storage_key : Text
project_storage_key = codes "smart-c-playground:v2:project"

unfoldable pub default_source : Text
default_source =
    codes
      "#include <stdio.h>\n\nint main(void) {\n    char name[64];\n\n    printf(\"名前を入力してください: \");\n    fflush(stdout);\n\n    if (fgets(name, sizeof(name), stdin) == NULL) {\n        return 1;\n    }\n\n    printf(\"こんにちは、%s\", name);\n    return 0;\n}\n"

abbrev pub default_project : Project
default_project = record {
  files = record { name = main_c; content = default_source } ∷ [];
  active_file_name = main_c;
}

pub file_of : Json → Option SourceFile
file_of file = do
  name ← valid_name file
  content ← content_of file
  some (record { name = name; content = content })

-- The loop of isPersistedProjectFiles, and the files.
unfoldable pub persisted_files : List Json → (names : List Text) → Option (List SourceFile)
unfolding file_of
persisted_files [] names = if has names main_c then some [] else none
persisted_files (value ∷ values) names = do
  file ← file_of value
  rest ← persisted_files values (names ++ to_lower_case file.name ∷ [])
  if has names (to_lower_case file.name) then none else some (file ∷ rest)

-- isPersistedProjectFiles, and the files.
unfoldable pub persisted_project_files : Option Json → Option (List SourceFile)
unfolding persisted_files
persisted_project_files value = do
  values ← as_array value
  if length values == 0 || ltb source_file_max_count (length values)
      then none
      else persisted_files values []

-- files.some((file) => file.name === name)
unfoldable pub has_file : List SourceFile → Text → Bool
has_file [] name = false
has_file (file ∷ files) name = text_eq file.name name || has_file files name

pub active_name : List SourceFile → Option Text → Text
active_name files none = main_c
active_name files (some name) = if has_file files name then name else main_c

-- A project with the source of version 1, or the default one.
pub migrated : Option Text → Project
migrated none = default_project
migrated (some source) = record {
  files = record { name = main_c; content = source } ∷ [];
  active_file_name = main_c;
}

pub project_of_files : Option Text → Fields → Option (List SourceFile) → Project
unfolding active_name migrated
project_of_files source fields none = migrated source
project_of_files source fields (some files) = record {
  files = files;
  active_file_name = active_name files (as_string (prop fields "activeFileName"));
}

pub project_of_fields : Option Text → Option Fields → Project
unfolding project_of_files
project_of_fields source none = default_project
project_of_fields source (some fields) =
    project_of_files source fields (persisted_project_files (prop fields "files"))

pub project_of_json : Option Text → Option Json → Project
unfolding project_of_fields
project_of_json source none = default_project
project_of_json source (some value) = project_of_fields source (properties_of value)

pub project_of_raw : (parse : Text → Option Json) → Option Text → Option Text → Project
unfolding migrated project_of_json
project_of_raw parse source none = migrated source
project_of_raw parse source (some raw) = project_of_json source (parse raw)

-- loadProject; `reads` says that localStorage lets itself be read.
unfoldable pub load_project : (parse : Text → Option Json) → (reads : Bool) → Map Text → Project
unfolding project_of_raw
load_project parse reads storage =
    if reads
    then project_of_raw parse (get storage source_storage_key) (get storage project_storage_key)
    else default_project

unfoldable pub project_files_json : List SourceFile → Items
project_files_json [] = nil
project_files_json (file ∷ files) =
    cons
      (obj (field (codes "name") (str file.name) (field (codes "content") (str file.content) end)))
      (project_files_json files)

unfoldable pub project_json : Project → Json
unfolding project_files_json
project_json project = obj (
    field (codes "files") (arr (project_files_json project.files))
      (field (codes "activeFileName") (str project.active_file_name) end))

-- saveProject; `writes` and `removes` say that setItem and removeItem do not throw.
unfoldable pub save_project :
    (stringify : Json → Text) → (writes removes : Bool) → Map Text → Project → Map Text × Bool
save_project stringify writes removes storage project =
    let written = set storage project_storage_key (stringify (project_json project)) in
    if not writes
    then (storage, false)
    else if removes
    then (delete written source_storage_key, true)
    else (written, false)
