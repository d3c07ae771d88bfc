-- ===== src/Client/Project.antt =====
-- How apps/web/components/playground.tsx changes the files of a project. What window.prompt and
-- window.confirm return is an argument.
pub mod Kept
pub mod Renamed
pub mod Edits
use smart_c_playground.Prelude.{
  ℕ, ◌≡◌, Bool, true, false, not, ◌&&◌, ◌||◌, Option, none, some, List, [], ◌∷◌, ◌++◌, map, String,
  leb, if◌then◌else◌, length,
}
use smart_c_playground.Text.{Text, codes, text_eq, trim}
use smart_c_playground.Contracts.{
  SourceFile, source_file_max_count, main_c, to_lower_case, is_valid_source_file_name,
}
use smart_c_playground.Client.Storage.{Project}

pub data FileNameError : Type 0 where
  malformed : FileNameError
  duplicate : FileNameError

abbrev pub is_other : Option Text → Text → Bool
is_other none name = true
is_other (some current_name) name = not (text_eq name current_name)

-- files.some((file) => file.name !== currentName && file.name.toLowerCase() === name.toLowerCase())
unfoldable pub collides : List SourceFile → Text → Option Text → Bool
collides [] name current_name = false
collides (file ∷ files) name current_name =
    (is_other current_name file.name && text_eq (to_lower_case file.name) (to_lower_case name))
    || collides files name current_name

-- getFileNameError
unfoldable pub get_file_name_error :
    List SourceFile → Text → (current_name : Option Text) → Option FileNameError
get_file_name_error files name current_name =
    if not (is_valid_source_file_name name)
    then some malformed
    else if collides files name current_name
    then some duplicate
    else none

-- What an action of the user does: nothing, an alert, or updateProjectStructure with a new project.
pub data Edit : Type 0 where
  nothing : Edit
  too_many : Edit
  bad_name : FileNameError → Edit
  restructured : Project → Edit

abbrev pub edit_unless : Option FileNameError → Project → Edit
edit_unless none project = restructured project
edit_unless (some reason) project = bad_name reason

pub create_named : List SourceFile → Option Text → Edit
create_named files none = nothing
create_named files (some input) =
    edit_unless (get_file_name_error files (trim input) none) (record {
      files = files ++ record { name = trim input; content = [] } ∷ [];
      active_file_name = trim input;
    })

-- createFile
unfoldable pub create_file : List SourceFile → (input : Option Text) → Edit
unfolding create_named
create_file files input =
    if leb source_file_max_count (length files) then too_many else create_named files input

abbrev pub renamed : Text → Text → SourceFile → SourceFile
renamed file_name name file =
    if text_eq file.name file_name then record file { name = name } else file

pub rename_to : List SourceFile → Text → Option Text → Edit
rename_to files file_name none = nothing
rename_to files file_name (some input) =
    if text_eq (trim input) file_name
    then nothing
    else edit_unless (get_file_name_error files (trim input) (some file_name)) (record {
      files = map (renamed file_name (trim input)) files;
      active_file_name = trim input;
    })

-- renameFile
unfoldable pub rename_file : List SourceFile → Text → (input : Option Text) → Edit
unfolding rename_to
rename_file files file_name input =
    if text_eq file_name main_c then nothing else rename_to files file_name input

-- files.filter((file) => file.name !== fileName)
unfoldable pub without_file : List SourceFile → Text → List SourceFile
without_file [] file_name = []
without_file (file ∷ files) file_name =
    let rest = without_file files file_name in
    if text_eq file.name file_name then rest else file ∷ rest

-- deleteFile
unfoldable pub delete_file : List SourceFile → Text → (confirmed : Bool) → Edit
delete_file files file_name confirmed =
    if text_eq file_name main_c || not confirmed
    then nothing
    else restructured (record { files = without_file files file_name; active_file_name = main_c })

-- handleFileChange
unfoldable pub handle_file_change : List SourceFile → (name content : Text) → List SourceFile
handle_file_change files name content =
    map (λ file. if text_eq file.name name then record file { content = content } else file) files

-- What the user may do to a project. Names come from the tabs of its files.
pub data UserAction : Type 0 where
  creates : (input : Option Text) → UserAction
  renames : (file_name : Text) → (input : Option Text) → UserAction
  deletes : (file_name : Text) → (confirmed : Bool) → UserAction
  changes : (name content : Text) → UserAction
  selects : (name : Text) → UserAction

abbrev pub project_after : Project → Edit → Project
project_after project nothing = project
project_after project too_many = project
project_after project (bad_name reason) = project
project_after project (restructured next) = next

unfoldable pub act : Project → UserAction → Project
unfolding create_file rename_file delete_file handle_file_change
act project (creates input) = project_after project (create_file project.files input)
act project (renames file_name input) =
    project_after project (rename_file project.files file_name input)
act project (deletes file_name confirmed) =
    project_after project (delete_file project.files file_name confirmed)
act project (changes name content) = record project {
  files = handle_file_change project.files name content;
}
act project (selects name) = record project { active_file_name = name }

unfoldable pub run : Project → List UserAction → Project
run project [] = project
run project (action ∷ rest) = run (act project action) rest
