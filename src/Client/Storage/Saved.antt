-- ===== src/Client/Storage/Saved.antt =====
-- A project that apps/web/lib/client/storage.ts has saved, when it is loaded again.
use smart_c_playground.Prelude.{
  ◌≤◌, ◌≡◌, refl, sym, subst, ◌∙◌, Bool, true, false, ◌||◌, Option, some, List, [], ◌∷◌, ◌++◌,
  arith, ltb, ◌==◌, length, All, inl, inr, Bool-cases, if_cases,
}
use mathlib.Core.Bool.{false≢true}
use mathlib.Core.List.{append_assoc, append-nil}
use smart_c_playground.Text.{Text, codes, text_eq, text_eq_iff, has}
use smart_c_playground.Json.{Json, str, arr, obj, end, field, items, prop}
use smart_c_playground.Map.{Map, get, set, get-set_self, get-delete, Distinct, set-Distinct}
use smart_c_playground.Contracts.{
  SourceFile, source_file_max_count, main_c, to_lower_case, valid_name, content_of,
  is_valid_source_file_name,
}
use smart_c_playground.Validation.Accepted.{Unique, lower_names, Fresh, Fresh-append, no-Fresh}
use smart_c_playground.Client.Storage.{
  Project, source_storage_key, project_storage_key, file_of, persisted_files,
  persisted_project_files, has_file, active_name, project_of_files, project_of_fields,
  project_of_json, project_of_raw, load_project, project_files_json, project_json, save_project,
}

abbrev pub HasValidName : SourceFile → Type 0
HasValidName file = is_valid_source_file_name file.name ≡ true

-- From 1 to 16 files with valid names, of which no two are equal up to case, and one is main.c; the active
-- file is one of them.
pub record IsProject (project : Project) : Type 0 where
  pub some_file : 1 ≤ length project.files
  pub few : length project.files ≤ source_file_max_count
  pub valid : All HasValidName project.files
  pub unique : Unique (lower_names project.files)
  pub main : has_file project.files main_c ≡ true
  pub active : has_file project.files project.active_file_name ≡ true

abbrev file_json : SourceFile → Json
file_json file =
    obj (field (codes "name") (str file.name) (field (codes "content") (str file.content) end))

file_of-file_json : (file : SourceFile) → HasValidName file → file_of (file_json file) ≡ some file
unfolding file_of valid_name content_of prop codes text_eq
file_of-file_json file h = rw h refl

persisted_files-json :
    (files : List SourceFile) (names : List Text)
    → All HasValidName files
    → Unique (lower_names files)
    → Fresh names (lower_names files)
    → has (names ++ lower_names files) main_c ≡ true
    → persisted_files (items (project_files_json files)) names ≡ some files
unfolding persisted_files project_files_json
persisted_files-json [] names v u f m =
    rw (subst (λ ns. has ns main_c ≡ true) (append-nil names) m) refl
persisted_files-json (file ∷ files) names v u f m =
    let name = to_lower_case file.name in
    let rest =
      persisted_files-json files (names ++ name ∷ []) v.1 u.1
        (Fresh-append names name (lower_names files) f.1 u.0)
        (subst (λ ns. has ns main_c ≡ true)
          (sym (append_assoc names (name ∷ []) (lower_names files))) m) in
    rw (file_of-file_json file v.0, persisted_files) (rw (rest, f.0) refl)

length-project_files_json :
    (files : List SourceFile) → length (items (project_files_json files)) ≡ length files
unfolding project_files_json
length-project_files_json [] = refl
length-project_files_json (file ∷ files) = omega (arith, length-project_files_json files)

-- main.c is a name in lower case.
has-lower_names :
    (files : List SourceFile) → has_file files main_c ≡ true → has (lower_names files) main_c ≡ true
unfolding has has_file text_eq to_lower_case codes
has-lower_names [] h = h
has-lower_names (file ∷ files) h = elim (Bool-cases (text_eq file.name main_c)) [
  | inl same ↦ rw ((text_eq_iff file.name main_c).0 same) refl
  | inr other ↦ rw (has-lower_names files (rw other at h)) (ground arith)
]

persisted_project_files-json :
    (project : Project)
    → IsProject project
    → persisted_project_files (some (arr (project_files_json project.files))) ≡ some project.files
unfolding persisted_project_files
persisted_project_files-json project p =
    rw
      (persisted_files-json project.files [] p.valid p.unique (no-Fresh (lower_names project.files))
        (has-lower_names project.files p.main))
      (if_cases (λ (o : Option (List SourceFile)). o ≡ some project.files)
        (length (items (project_files_json project.files)) == 0
          || ltb source_file_max_count (length (items (project_files_json project.files))))
        (λ bad. absurd (
          false≢true
            (ground (arith, bad, length-project_files_json project.files, p.some_file, p.few))))
        (λ _. refl))

active_name-json :
    (files : List SourceFile) (name : Text)
    → has_file files name ≡ true
    → active_name files (some name) ≡ name
unfolding active_name
active_name-json files name h = rw h refl

project_of_json-project_json :
    (source : Option Text) (project : Project)
    → IsProject project
    → project_of_json source (some (project_json project)) ≡ project
unfolding project_of_json project_of_fields project_of_files project_json prop codes text_eq
project_of_json-project_json source project p =
    rw (persisted_project_files-json project p)
      (rw (active_name-json project.files project.active_file_name p.active) refl)

keys-differ : (text_eq source_storage_key project_storage_key ≡ false)
unfolding text_eq codes
keys-differ = refl

get-saved :
    (stringify : Json → Text) (removes : Bool) (storage : Map Text) (project : Project)
    → Distinct storage
    → get (save_project stringify true removes storage project).0 project_storage_key
      ≡ some (stringify (project_json project))
unfolding save_project
get-saved stringify removes storage project d =
    let text = stringify (project_json project) in
    let written = set storage project_storage_key text in
    let there = get-set_self storage project_storage_key text in
    if_cases (λ (r : Map Text × Bool). get r.0 project_storage_key ≡ some text) removes
      (λ _.
        get-delete written source_storage_key project_storage_key
          (set-Distinct storage project_storage_key text d)
        ∙ rw keys-differ there)
      (λ _. there)

-- A valid project that is written to a storage that can be read is loaded again as it was, whether
-- or not the old entry can be removed, if the storage has distinct keys and the JSON text of the
-- project parses to its JSON value.
pub load_project-save_project :
    (parse : Text → Option Json) (stringify : Json → Text) (removes : Bool) (storage : Map Text)
    (project : Project)
    → IsProject project
    → Distinct storage
    → parse (stringify (project_json project)) ≡ some (project_json project)
    → load_project parse true (save_project stringify true removes storage project).0 ≡ project
unfolding load_project project_of_raw
load_project-save_project parse stringify removes storage project p d faithful =
    rw (get-saved stringify removes storage project d) (
      rw faithful (
        project_of_json-project_json
          (get (save_project stringify true removes storage project).0 source_storage_key) project
          p))
