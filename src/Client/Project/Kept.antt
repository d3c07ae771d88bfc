-- ===== src/Client/Project/Kept.antt =====
-- That every action of the user in apps/web/components/playground.tsx keeps the project one that can be
-- stored and loaded.
use smart_c_playground.Prelude.{
  suc, ◌≤◌, ◌≡◌, refl, sym, subst, ap, ◌∙◌, inl, inr, true, false, ◌||◌, Option, none, some, List,
  [], ◌∷◌, ◌++◌, arith, leb, if_cases, length, length-append, All, Bool-cases,
}
use smart_c_playground.Text.{Text, text_eq_refl, has, trim}
use smart_c_playground.Contracts.{
  SourceFile, source_file_max_count, main_c, to_lower_case, is_valid_source_file_name,
}
use smart_c_playground.Validation.Accepted.{Unique, lower_names, Unique-append}
use smart_c_playground.Client.Storage.{Project, has_file}
use smart_c_playground.Client.Storage.Saved.{HasValidName, IsProject}
use smart_c_playground.Client.Project.{
  collides, get_file_name_error, Edit, nothing, too_many, bad_name, restructured, edit_unless,
  create_named, create_file,
}

-- What is known of the files of a project, whichever is active.
pub record AreFiles (files : List SourceFile) : Type 0 where
  pub few : length files ≤ source_file_max_count
  pub valid : All HasValidName files
  pub unique : Unique (lower_names files)
  pub main : has_file files main_c ≡ true

length-has_file :
    (files : List SourceFile) (name : Text) → has_file files name ≡ true → 1 ≤ length files
unfolding has_file
length-has_file [] name h = cc
length-has_file (file ∷ files) name h = omega arith

pub parts-IsProject :
    (files : List SourceFile) (active : Text)
    → AreFiles files
    → has_file files active ≡ true
    → IsProject (record { files = files; active_file_name = active })
parts-IsProject files active f a = record {
  some_file = length-has_file files main_c f.main;
  few = f.few;
  valid = f.valid;
  unique = f.unique;
  main = f.main;
  active = a;
}

abbrev pub KeepsProject : Edit → Type 0
KeepsProject nothing = Unit
KeepsProject too_many = Unit
KeepsProject (bad_name reason) = Unit
KeepsProject (restructured project) = IsProject project

pub edit_unless-KeepsProject :
    (files : List SourceFile) (name : Text) (current_name : Option Text) (project : Project)
    → (is_valid_source_file_name name ≡ true
        → collides files name current_name ≡ false
        → IsProject project)
    → KeepsProject (edit_unless (get_file_name_error files name current_name) project)
unfolding get_file_name_error
edit_unless-KeepsProject files name current_name project h =
    elim (Bool-cases (is_valid_source_file_name name)) [
      | inr bad ↦ rw bad tt
      | inl good ↦ elim (Bool-cases (collides files name current_name)) [
        | inl same ↦ rw (good, same) tt
        | inr fresh ↦ rw (good, fresh) (h good fresh)
      ]
    ]

has_file-append :
    (files more : List SourceFile) (name : Text)
    → has_file (files ++ more) name ≡ (has_file files name || has_file more name)
unfolding has_file
has_file-append [] more name = refl
has_file-append (file ∷ files) more name = ground (arith, has_file-append files more name)

valid-append :
    (files : List SourceFile) (file : SourceFile)
    → All HasValidName files
    → HasValidName file
    → All HasValidName (files ++ file ∷ [])
valid-append [] file a h = (h, tt)
valid-append (f ∷ files) file a h = (a.0, valid-append files file a.1 h)

lower_names-append :
    (files : List SourceFile) (file : SourceFile)
    → lower_names (files ++ file ∷ []) ≡ lower_names files ++ to_lower_case file.name ∷ []
lower_names-append [] file = refl
lower_names-append (f ∷ files) file =
    ap (λ ns. to_lower_case f.name ∷ ns) (lower_names-append files file)

collides-none :
    (files : List SourceFile) (name : Text)
    → collides files name none ≡ false
    → has (lower_names files) (to_lower_case name) ≡ false
unfolding collides has
collides-none [] name h = refl
collides-none (file ∷ files) name h = ground (arith, h, collides-none files name)

create_named-KeepsProject :
    (files : List SourceFile) (input : Option Text)
    → AreFiles files
    → suc (length files) ≤ source_file_max_count
    → KeepsProject (create_named files input)
unfolding create_named has_file
create_named-KeepsProject files none f n = tt
create_named-KeepsProject files (some input) f n =
    let name = trim input in
    let file : SourceFile = record { name = name; content = [] } in
    edit_unless-KeepsProject files name none
      (record { files = files ++ file ∷ []; active_file_name = name })
      (λ v c.
        parts-IsProject (files ++ file ∷ []) name
          (record {
            few = omega (arith, n, length-append files (file ∷ []));
            valid = valid-append files file f.valid v;
            unique = subst Unique (sym (lower_names-append files file)) (
                Unique-append (lower_names files) (to_lower_case name) f.unique
                  (collides-none files name c));
            main = has_file-append files (file ∷ []) main_c ∙ rw f.main refl;
          })
          (has_file-append files (file ∷ []) name ∙ ground (arith, text_eq_refl name)))

pub create_file-KeepsProject :
    (files : List SourceFile) (input : Option Text)
    → AreFiles files
    → KeepsProject (create_file files input)
unfolding create_file
create_file-KeepsProject files input f =
    if_cases KeepsProject (leb source_file_max_count (length files)) (λ _. tt)
      (λ e. create_named-KeepsProject files input f (ground (arith, e)))
