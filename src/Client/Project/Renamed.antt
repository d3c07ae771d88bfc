-- ===== src/Client/Project/Renamed.antt =====
-- The files of apps/web/components/playground.tsx after one of them is renamed.
use smart_c_playground.Prelude.{
  ◌≡◌, refl, subst, inl, inr, true, false, some, List, [], ◌∷◌, map, arith, if_cases, length, All,
  Bool-cases,
}
use smart_c_playground.Text.{Text, text_eq, text_eq_iff, text_eq_refl, has}
use smart_c_playground.Contracts.{SourceFile, to_lower_case, is_valid_source_file_name}
use smart_c_playground.Validation.Accepted.{Unique, lower_names}
use smart_c_playground.Client.Storage.{has_file}
use smart_c_playground.Client.Storage.Saved.{HasValidName}
use smart_c_playground.Client.Project.{collides, renamed}

module _ (file_name name : Text) where
  abbrev pub moved : List SourceFile → List SourceFile
  moved files = map (renamed file_name name) files

  pub length-moved : (files : List SourceFile) → length (moved files) ≡ length files
  length-moved [] = refl
  length-moved (file ∷ files) = omega (arith, length-moved files)

  renamed-HasValidName :
      (file : SourceFile)
      → HasValidName file
      → is_valid_source_file_name name ≡ true
      → HasValidName (renamed file_name name file)
  renamed-HasValidName file a v =
      if_cases HasValidName (text_eq file.name file_name) (λ _. v) (λ _. a)

  pub valid-moved :
      (files : List SourceFile)
      → All HasValidName files
      → is_valid_source_file_name name ≡ true
      → All HasValidName (moved files)
  valid-moved [] a v = tt
  valid-moved (file ∷ files) a v = (renamed-HasValidName file a.0 v, valid-moved files a.1 v)

  -- A name of no file is the name of no file after the renaming, if it is not the new name.
  has-moved :
      (files : List SourceFile) (other : Text)
      → has (lower_names files) other ≡ false
      → text_eq (to_lower_case name) other ≡ false
      → has (lower_names (moved files)) other ≡ false
  unfolding has
  has-moved [] other h n = refl
  has-moved (file ∷ files) other h n = elim (Bool-cases (text_eq file.name file_name)) [
    | inl same ↦ rw same (ground (arith, n, h, has-moved files other))
    | inr differs ↦ rw differs (ground (arith, n, h, has-moved files other))
  ]

  -- The new name is the name of no file that is left.
  has-moved_new :
      (files : List SourceFile)
      → has (lower_names files) (to_lower_case file_name) ≡ false
      → collides files name (some file_name) ≡ false
      → has (lower_names (moved files)) (to_lower_case name) ≡ false
  unfolding has collides
  has-moved_new [] h c = refl
  has-moved_new (file ∷ files) h c = elim (Bool-cases (text_eq file.name file_name)) [
    | inl same ↦ ground (
      arith,
      h,
      text_eq_iff file.name file_name,
      text_eq_iff (to_lower_case file.name) (to_lower_case file_name),
      same,
    )
    | inr differs ↦ rw differs (ground (arith, differs, h, c, has-moved_new files))
  ]

  pub Unique-moved :
      (files : List SourceFile)
      → Unique (lower_names files)
      → collides files name (some file_name) ≡ false
      → Unique (lower_names (moved files))
  unfolding collides
  Unique-moved [] u c = tt
  Unique-moved (file ∷ files) u c = elim (Bool-cases (text_eq file.name file_name)) [
    | inl same ↦ rw same (
      has-moved_new files
          (subst (λ (t : Text). has (lower_names files) (to_lower_case t) ≡ false)
            ((text_eq_iff file.name file_name).0 same) u.0)
          (ground (arith, c)),
      Unique-moved files u.1 (ground (arith, c)),
    )
    | inr differs ↦ rw differs (
      has-moved files (to_lower_case file.name) u.0 (
          ground (
            arith,
            c,
            differs,
            text_eq_iff (to_lower_case file.name) (to_lower_case name),
            text_eq_iff (to_lower_case name) (to_lower_case file.name),
          )),
      Unique-moved files u.1 (ground (arith, c)),
    )
  ]

  pub has_file-moved :
      (files : List SourceFile) (other : Text)
      → text_eq file_name other ≡ false
      → has_file files other ≡ true
      → has_file (moved files) other ≡ true
  unfolding has_file
  has_file-moved [] other n h = h
  has_file-moved (file ∷ files) other n h = elim (Bool-cases (text_eq file.name file_name)) [
    | inl same ↦ rw same (
        ground (
          arith,
          n,
          h,
          text_eq_iff file.name file_name,
          text_eq_iff file.name other,
          text_eq_iff file_name other,
          same,
          has_file-moved files other,
        ))
    | inr differs ↦ rw differs (ground (arith, n, h, has_file-moved files other))
  ]

  pub has_file-moved_new :
      (files : List SourceFile)
      → has_file files file_name ≡ true
      → has_file (moved files) name ≡ true
  unfolding has_file
  has_file-moved_new [] h = cc
  has_file-moved_new (file ∷ files) h = elim (Bool-cases (text_eq file.name file_name)) [
    | inl same ↦ rw same (ground (arith, text_eq_refl name))
    | inr differs ↦ rw differs (ground (arith, differs, h, has_file-moved_new files))
  ]
