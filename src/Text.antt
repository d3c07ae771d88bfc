-- ===== src/Text.antt =====
-- JavaScript strings as lists of UTF-16 code units, and what the program asks of them.
pub mod Utf8
pub mod Search
pub mod Decimal
use Prim.Native.Char.{code}
use smart_c_playground.Prelude.{
  ℕ, suc, ◌+◌, ◌*◌, ◌≤◌, ◌≡◌, refl, ap, sym, ◌∙◌, ◌↔◌, Bool, true, false, Option, none, some, ◌>>=◌,
  ◌&&◌, ◌||◌, List, [], ◌∷◌, ◌++◌, String, arith, ltb, leb, ◌==◌, if◌then◌else◌, ==_iff, length,
}

abbrev pub Text : Type 0
Text = List ℕ

-- The text of a literal of the source: its units, where it is ASCII.
unfoldable pub codes : String → Text
codes String.[] = []
codes (String.◌∷◌ c s) = code c ∷ codes s

-- a === b
unfoldable pub text_eq : Text → Text → Bool
text_eq [] [] = true
text_eq (a ∷ s) (b ∷ t) = a == b && text_eq s t
text_eq _ _ = false

pub text_eq_iff : (s t : Text) → (text_eq s t ≡ true) ↔ (s ≡ t)
unfolding text_eq
text_eq_iff [] [] = ground arith
text_eq_iff [] (b ∷ t) = ground arith
text_eq_iff (a ∷ s) [] = ground arith
text_eq_iff (a ∷ s) (b ∷ t) = ground (arith, text_eq_iff s t)

pub text_eq_refl : (s : Text) → text_eq s s ≡ true
text_eq_refl s = (text_eq_iff s s).1 refl

-- s.includes("\0") and the like
unfoldable pub includes : Text → ℕ → Bool
includes [] u = false
includes (a ∷ s) u = a == u || includes s u

-- text.indexOf(u), where `none` is -1
unfoldable pub index_of : Text → ℕ → Option ℕ
index_of [] u = none
index_of (a ∷ s) u =
    let rest = index_of s u >>= λ i. some (suc i) in if a == u then some 0 else rest

-- text.lastIndexOf(u)
unfoldable pub last_index_of : Text → ℕ → Option ℕ
last_index_of [] u = none
last_index_of (a ∷ s) u = elim (last_index_of s u) [
  | some i ↦ some (suc i)
  | none ↦ if a == u then some 0 else none
]

-- text.startsWith(prefix)
unfoldable pub starts_with : Text → Text → Bool
starts_with text [] = true
starts_with [] (u ∷ prefix) = false
starts_with (a ∷ text) (u ∷ prefix) = a == u && starts_with text prefix

-- text.includes(part)
unfoldable pub includes_text : Text → Text → Bool
includes_text [] part = starts_with [] part
includes_text (a ∷ text) part = starts_with (a ∷ text) part || includes_text text part

-- text.split(separator)[0] for a separator of one unit
unfoldable pub before_unit : Text → ℕ → Text
before_unit [] u = []
before_unit (a ∷ text) u = let rest = before_unit text u in if a == u then [] else a ∷ rest

-- text.split(separator) for a separator of one unit
unfoldable pub split : Text → ℕ → List Text
split [] u = [] ∷ []
split (a ∷ text) u = elim (split text u) [
  | [] ↦ []
  | part ∷ parts ↦ if a == u then [] ∷ (part ∷ parts) else (a ∷ part) ∷ parts
]

-- White space and line terminators, as trim knows them.
abbrev is_space : ℕ → Bool
is_space u =
    leb 9 u && leb u 13
    || u == 32
    || u == 160
    || u == 0x1680
    || leb 0x2000 u && leb u 0x200a
    || u == 0x2028
    || u == 0x2029
    || u == 0x202f
    || u == 0x205f
    || u == 0x3000
    || u == 0xfeff

unfoldable pub trim_start : Text → Text
trim_start [] = []
trim_start (a ∷ text) = let rest = trim_start text in if is_space a then rest else a ∷ text

unfoldable pub trim_end : Text → Text
trim_end [] = []
trim_end (a ∷ text) = elim (trim_end text) [
  | [] ↦ if is_space a then [] else a ∷ []
  | b ∷ rest ↦ a ∷ b ∷ rest
]

-- text.trim()
unfoldable pub trim : Text → Text
unfolding trim_start trim_end
trim text = trim_end (trim_start text)

-- A set of strings, in insertion order.
unfoldable pub has : List Text → Text → Bool
has [] t = false
has (s ∷ ss) t = text_eq s t || has ss t

abbrev pub is_high_surrogate : ℕ → Bool
is_high_surrogate u = leb 0xd800 u && ltb u 0xdc00

abbrev pub is_low_surrogate : ℕ → Bool
is_low_surrogate u = leb 0xdc00 u && ltb u 0xe000

-- Bytes that a unit adds: a pair makes four bytes, and a surrogate alone the three of U+FFFD.
unit_bytes : Bool → ℕ → ℕ
unit_bytes after_high u =
    if after_high && is_low_surrogate u
    then 1
    else if ltb u 0x80
    then 1
    else if ltb u 0x800
    then 2
    else 3

bytes_from : Bool → Text → ℕ
bytes_from after_high [] = 0
bytes_from after_high (u ∷ s) = unit_bytes after_high u + bytes_from (is_high_surrogate u) s

-- Buffer.byteLength(s, "utf8") and new TextEncoder().encode(s).byteLength
unfoldable pub byte_length : Text → ℕ
unfolding bytes_from unit_bytes
byte_length s = bytes_from false s

unit_bytes_bounds : (b : Bool) (u : ℕ) → (1 ≤ unit_bytes b u) × (unit_bytes b u ≤ 3)
unfolding unit_bytes
unit_bytes_bounds b u = ground arith

length-le-bytes_from :
    (b : Bool) (s : Text) → (length s ≤ bytes_from b s) × (bytes_from b s ≤ 3 * length s)
unfolding bytes_from
length-le-bytes_from b [] = omega arith
length-le-bytes_from b (u ∷ s) =
    omega (arith, unit_bytes_bounds b u, length-le-bytes_from (is_high_surrogate u) s)

-- A text of n units has at least n and at most 3 n bytes.
pub length-le-byte_length : (s : Text) → (length s ≤ byte_length s) × (byte_length s ≤ 3 * length s)
unfolding byte_length
length-le-byte_length s = length-le-bytes_from false s

emoji_bytes : byte_length (0x41 ∷ 0xd83d ∷ 0xde00 ∷ 0xd83d ∷ []) ≡ 8
unfolding byte_length
emoji_bytes = refl
