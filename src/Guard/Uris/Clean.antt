-- ===== src/Guard/Uris/Clean.antt =====
-- What a message holds when hasUnexpectedUri lets it through.
use smart_c_playground.Prelude.{◌≡◌, ◌⊎◌, true, List}
use smart_c_playground.Text.{Text, has}
use smart_c_playground.Json.{
  Json, null, bool, num, str, arr, obj, Items, nil, cons, Fields, end, field,
}
use smart_c_playground.Guard.Uris.{uri_property_names}

module _ (document_uris : List Text) (workspace_uri : Text) where
  -- A URI of the session.
  abbrev pub IsSessionUri : Text → Type 0
  IsSessionUri s = (s ≡ workspace_uri) ⊎ (has document_uris s ≡ true)

  -- A text under one of the URI names is a URI of the session.
  abbrev pub IsExpected : Text → Json → Type 0
  IsExpected k (str s) = has uri_property_names k ≡ true → IsSessionUri s
  IsExpected k null = Unit
  IsExpected k (bool b) = Unit
  IsExpected k (num n) = Unit
  IsExpected k (arr vs) = Unit
  IsExpected k (obj fs) = Unit

  -- So it is for every property of every object in the value, at any depth.
  abbrev mutual
    pub IsClean : Json → Type 0
    IsClean null = Unit
    IsClean (bool b) = Unit
    IsClean (num n) = Unit
    IsClean (str s) = Unit
    IsClean (arr vs) = AreCleanItems vs
    IsClean (obj fs) = AreCleanFields fs

    pub AreCleanItems : Items → Type 0
    AreCleanItems nil = Unit
    AreCleanItems (cons v vs) = IsClean v × AreCleanItems vs

    pub AreCleanFields : Fields → Type 0
    AreCleanFields end = Unit
    AreCleanFields (field k v rest) = IsExpected k v × IsClean v × AreCleanFields rest
