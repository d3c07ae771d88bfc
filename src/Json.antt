-- ===== src/Json.antt =====
-- Parsed JSON values, as JSON.parse returns them.
use smart_c_playground.Prelude.{
  ℕ, Bool, Option, none, some, List, [], ◌∷◌, String, ltb, if◌then◌else◌,
}
use smart_c_playground.Text.{Text, codes, text_eq}

-- A finite double: an integer that is at least 0, the integer -(n + 1), or one that is no integer.
pub data Number : Type 0 where
  pos : ℕ → Number
  negsuc : ℕ → Number
  fraction : Number

mutual
  pub data Json : Type 0 where
    null : Json
    bool : Bool → Json
    num : Number → Json
    str : Text → Json
    arr : Items → Json
    obj : Fields → Json

  pub data Items : Type 0 where
    nil : Items
    cons : Json → Items → Items

  pub data Fields : Type 0 where
    end : Fields
    field : Text → Json → Fields → Fields

abbrev pub items : Items → List Json
items nil = []
items (cons v vs) = v ∷ items vs

-- o.name, where `none` is undefined. The names that the program reads are on no prototype.
unfoldable pub prop : Fields → String → Option Json
prop end name = none
prop (field k v rest) name = if text_eq k (codes name) then some v else prop rest name

-- The value as an object: typeof v === "object" && v !== null && !Array.isArray(v).
abbrev pub as_object : Option Json → Option Fields
as_object (some (obj fs)) = some fs
as_object (some null) = none
as_object (some (bool b)) = none
as_object (some (num n)) = none
as_object (some (str s)) = none
as_object (some (arr vs)) = none
as_object none = none

abbrev pub as_array : Option Json → Option (List Json)
as_array (some (arr vs)) = some (items vs)
as_array (some null) = none
as_array (some (bool b)) = none
as_array (some (num n)) = none
as_array (some (str s)) = none
as_array (some (obj fs)) = none
as_array none = none

abbrev pub as_string : Option Json → Option Text
as_string (some (str s)) = some s
as_string (some null) = none
as_string (some (bool b)) = none
as_string (some (num n)) = none
as_string (some (arr vs)) = none
as_string (some (obj fs)) = none
as_string none = none

abbrev pub max_safe_integer : ℕ
max_safe_integer = 9007199254740991

-- Number.isSafeInteger(v) && v >= 0, and the value.
abbrev pub as_safe_natural : Option Json → Option ℕ
as_safe_natural (some (num (pos n))) = if ltb max_safe_integer n then none else some n
as_safe_natural (some (num (negsuc n))) = none
as_safe_natural (some (num fraction)) = none
as_safe_natural (some null) = none
as_safe_natural (some (bool b)) = none
as_safe_natural (some (str s)) = none
as_safe_natural (some (arr vs)) = none
as_safe_natural (some (obj fs)) = none
as_safe_natural none = none

-- The properties of what JSON.parse has returned; reading one of null throws.
abbrev pub properties_of : Json → Option Fields
properties_of null = none
properties_of (obj fields) = some fields
properties_of (bool b) = some end
properties_of (num n) = some end
properties_of (str s) = some end
properties_of (arr vs) = some end
