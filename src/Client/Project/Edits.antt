-- ===== src/Client/Project/Edits.antt =====
-- Every action of the user in apps/web/components/playground.tsx on a project that can be loaded.
use smart_c_playground.Prelude.{
  ◌≤◌, ◌≡◌, refl, sym, subst, ap, ◌∙◌, inl, inr, Bool, true, false, not, ◌||◌, Option, none, some,
  List, [], ◌∷◌, map, arith, if◌then◌else◌, if_cases, length, All, Bool-cases,
}
use smart_c_playground.Text.{Text, text_eq, text_eq_iff, has, trim}
use smart_c_playground.Contracts.{SourceFile, main_c, to_lower_case, is_valid_source_file_name}
use smart_c_playground.Validation.Accepted.{Unique, lower_names}
use smart_c_playground.Client.Storage.{Project, has_file}
use smart_c_playground.Client.Storage.Saved.{HasValidName, IsProject}
use smart_c_playground.Client.Project.{
  Edit, nothing, too_many, bad_name, restructured, UserAction, creates, renames, deletes, changes,
  selects, project_after, act, run, create_file, rename_to, rename_file, without_file, delete_file,
  handle_file_change, renamed,
}
use smart_c_playground.Client.Project.Kept.{
  AreFiles, parts-IsProject, KeepsProject, edit_unless-KeepsProject, create_file-KeepsProject,
}
use smart_c_playground.Client.Project.Renamed.{
  moved, length-moved, valid-moved, Unique-moved, has_file-moved, has_file-moved_new,
}

files_of : (project : Project) → IsProject project → AreFiles project.files
files_of project p = record { few = p.few; valid = p.valid; unique = p.unique; main = p.main }

rename_to-KeepsProject :
    (files : List SourceFile) (file_name : Text) (input : Option Text)
    → AreFiles files
    → has_file files file_name ≡ true
    → text_eq file_name main_c ≡ false
    → KeepsProject (rename_to files file_name input)
unfolding rename_to
rename_to-KeepsProject files file_name none f h n = tt
rename_to-KeepsProject files file_name (some input) f h n =
    let name = trim input in
    let next : Project = record {
      files = map (renamed file_name name) files;
      active_file_name = name;
    } in
    if_cases KeepsProject (text_eq name file_name) (λ _. tt)
      (λ _. edit_unless-KeepsProject files name (some file_name) next (λ v c.
        parts-IsProject (moved file_name name files) name
          (record {
            few = omega (arith, f.few, length-moved file_name name files);
            valid = valid-moved file_name name files f.valid v;
            unique = Unique-moved file_name name files f.unique c;
            main = has_file-moved file_name name files main_c n f.main;
          })
          (has_file-moved_new file_name name files h)))

rename_file-KeepsProject :
    (files : List SourceFile) (file_name : Text) (input : Option Text)
    → AreFiles files
    → has_file files file_name ≡ true
    → KeepsProject (rename_file files file_name input)
unfolding rename_file
rename_file-KeepsProject files file_name input f h =
    if_cases KeepsProject (text_eq file_name main_c) (λ _. tt)
      (λ n. rename_to-KeepsProject files file_name input f h n)

module _ (file_name : Text) where
  length-without : (files : List SourceFile) → length (without_file files file_name) ≤ length files
  unfolding without_file
  length-without [] = omega arith
  length-without (file ∷ files) = ground (arith, length-without files)

  valid-without :
      (files : List SourceFile)
      → All HasValidName files
      → All HasValidName (without_file files file_name)
  unfolding without_file
  valid-without [] a = tt
  valid-without (file ∷ files) a =
      if_cases (λ (fs : List SourceFile). All HasValidName fs) (text_eq file.name file_name)
        (λ _. valid-without files a.1) (λ _. (a.0, valid-without files a.1))

  has-without :
      (files : List SourceFile) (other : Text)
      → has (lower_names files) other ≡ false
      → has (lower_names (without_file files file_name)) other ≡ false
  unfolding without_file has
  has-without [] other h = refl
  has-without (file ∷ files) other h = elim (Bool-cases (text_eq file.name file_name)) [
    | inl same ↦ rw same (ground (arith, h, has-without files other))
    | inr differs ↦ rw differs (ground (arith, h, has-without files other))
  ]

  Unique-without :
      (files : List SourceFile)
      → Unique (lower_names files)
      → Unique (lower_names (without_file files file_name))
  unfolding without_file
  Unique-without [] u = tt
  Unique-without (file ∷ files) u =
      if_cases (λ (fs : List SourceFile). Unique (lower_names fs)) (text_eq file.name file_name)
        (λ _. Unique-without files u.1)
        (λ _. (has-without files (to_lower_case file.name) u.0, Unique-without files u.1))

  has_file-without :
      (files : List SourceFile) (other : Text)
      → text_eq file_name other ≡ false
      → has_file files other ≡ true
      → has_file (without_file files file_name) other ≡ true
  unfolding without_file has_file
  has_file-without [] other n h = h
  has_file-without (file ∷ files) other n h = elim (Bool-cases (text_eq file.name file_name)) [
    | inl same ↦ rw same (
        ground (
          arith,
          n,
          h,
          text_eq_iff file.name file_name,
          text_eq_iff file.name other,
          text_eq_iff file_name other,
          same,
          has_file-without files other,
        ))
    | inr differs ↦ rw differs (ground (arith, n, h, has_file-without files other))
  ]

delete_file-KeepsProject :
    (files : List SourceFile) (file_name : Text) (confirmed : Bool)
    → AreFiles files
    → KeepsProject (delete_file files file_name confirmed)
unfolding delete_file
delete_file-KeepsProject files file_name confirmed f =
    if_cases KeepsProject (text_eq file_name main_c || not confirmed) (λ _. tt)
      (λ e.
        let main = has_file-without file_name files main_c (ground (arith, e)) f.main in
        parts-IsProject (without_file files file_name) main_c
          (record {
            few = omega (arith, f.few, length-without file_name files);
            valid = valid-without file_name files f.valid;
            unique = Unique-without file_name files f.unique;
            main = main;
          })
          main)

module _ (name content : Text) where
  abbrev written : SourceFile → SourceFile
  written file = if text_eq file.name name then record file { content = content } else file

  written-name : (file : SourceFile) → (written file).name ≡ file.name
  written-name file =
      if_cases (λ (f : SourceFile). f.name ≡ file.name) (text_eq file.name name) (λ _. refl)
        (λ _. refl)

  length-change :
      (files : List SourceFile) → length (handle_file_change files name content) ≡ length files
  unfolding handle_file_change
  length-change [] = refl
  length-change (file ∷ files) = omega (arith, length-change files)

  valid-change :
      (files : List SourceFile)
      → All HasValidName files
      → All HasValidName (handle_file_change files name content)
  unfolding handle_file_change
  valid-change [] a = tt
  valid-change (file ∷ files) a = (
    subst (λ (t : Text). is_valid_source_file_name t ≡ true) (sym (written-name file)) a.0,
    valid-change files a.1,
  )

  lower_names-change :
      (files : List SourceFile)
      → lower_names (handle_file_change files name content) ≡ lower_names files
  unfolding handle_file_change
  lower_names-change [] = refl
  lower_names-change (file ∷ files) =
      ap (λ (t : Text). to_lower_case t ∷ lower_names (handle_file_change files name content))
        (written-name file)
      ∙ ap (λ ns. to_lower_case file.name ∷ ns) (lower_names-change files)

  has_file-change :
      (files : List SourceFile) (other : Text)
      → has_file (handle_file_change files name content) other ≡ has_file files other
  unfolding handle_file_change has_file
  has_file-change [] other = refl
  has_file-change (file ∷ files) other =
      ap (λ (t : Text). text_eq t other || has_file (handle_file_change files name content) other)
        (written-name file)
      ∙ ap (λ b. text_eq file.name other || b) (has_file-change files other)

-- The tabs offer the files of the project.
abbrev pub IsOffered : Project → UserAction → Type 0
IsOffered project (creates input) = Unit
IsOffered project (renames file_name input) = has_file project.files file_name ≡ true
IsOffered project (deletes file_name confirmed) = has_file project.files file_name ≡ true
IsOffered project (changes name content) = has_file project.files name ≡ true
IsOffered project (selects name) = has_file project.files name ≡ true

abbrev pub AreOffered : Project → List UserAction → Type 0
AreOffered project [] = Unit
AreOffered project (action ∷ rest) = IsOffered project action × AreOffered (act project action) rest

after-IsProject :
    (project : Project) (e : Edit)
    → IsProject project
    → KeepsProject e
    → IsProject (project_after project e)
after-IsProject project nothing p k = p
after-IsProject project too_many p k = p
after-IsProject project (bad_name reason) p k = p
after-IsProject project (restructured next) p k = k

act-IsProject :
    (project : Project) (action : UserAction)
    → IsProject project
    → IsOffered project action
    → IsProject (act project action)
unfolding act
act-IsProject project (creates input) p h =
    after-IsProject project (create_file project.files input) p
      (create_file-KeepsProject project.files input (files_of project p))
act-IsProject project (renames file_name input) p h =
    after-IsProject project (rename_file project.files file_name input) p
      (rename_file-KeepsProject project.files file_name input (files_of project p) h)
act-IsProject project (deletes file_name confirmed) p h =
    after-IsProject project (delete_file project.files file_name confirmed) p
      (delete_file-KeepsProject project.files file_name confirmed (files_of project p))
act-IsProject project (changes name content) p h = record {
  some_file = omega (arith, p.some_file, length-change name content project.files);
  few = omega (arith, p.few, length-change name content project.files);
  valid = valid-change name content project.files p.valid;
  unique = subst Unique (sym (lower_names-change name content project.files)) p.unique;
  main = has_file-change name content project.files main_c ∙ p.main;
  active = has_file-change name content project.files project.active_file_name ∙ p.active;
}
act-IsProject project (selects name) p h = record {
  some_file = p.some_file;
  few = p.few;
  valid = p.valid;
  unique = p.unique;
  main = p.main;
  active = h;
}

-- If a project has from 1 to 16 files with valid names that differ up to case, one of them main.c,
-- and its active file is one of them, then it is still so after any actions of the user, each on a
-- file that is there.
pub run-IsProject :
    (project : Project) (actions : List UserAction)
    → IsProject project
    → AreOffered project actions
    → IsProject (run project actions)
unfolding run
run-IsProject project [] p h = p
run-IsProject project (action ∷ rest) p h =
    run-IsProject (act project action) rest (act-IsProject project action p h.0) h.1
