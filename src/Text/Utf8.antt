-- ===== src/Text/Utf8.antt =====
-- Buffer.from(text, "utf8"): the bytes of a JavaScript string, a lone surrogate as U+FFFD.
use smart_c_playground.Prelude.{
  ℕ, ◌+◌, ◌-◌, ◌*◌, ◌/◌, ◌%◌, ◌≡◌, refl, inl, inr, true, false, Option, none, some, List, [], ◌∷◌,
  ◌++◌, arith, ltb, if◌then◌else◌, is_some, length, length-append, Bool-cases,
}
use smart_c_playground.Text.{
  Text, is_high_surrogate, is_low_surrogate, unit_bytes, bytes_from, byte_length,
}

-- The bytes of a code point below 0x10000.
utf8_unit : ℕ → List ℕ
utf8_unit u =
    if ltb u 0x80
    then u ∷ []
    else if ltb u 0x800
    then (0xc0 + u / 64) ∷ (0x80 + u % 64) ∷ []
    else (0xe0 + u / 4096) ∷ (0x80 + u / 64 % 64) ∷ (0x80 + u % 64) ∷ []

replacement : List ℕ
unfolding utf8_unit
replacement = utf8_unit 0xfffd

-- The code point of a surrogate pair.
pair_point : ℕ → ℕ → ℕ
pair_point high low = 0x10000 + (high - 0xd800) * 0x400 + (low - 0xdc00)

utf8_pair : ℕ → ℕ → List ℕ
unfolding pair_point
utf8_pair high low =
    let c = pair_point high low in
    (0xf0 + c / 262144) ∷ (0x80 + c / 4096 % 64) ∷ (0x80 + c / 64 % 64) ∷ (0x80 + c % 64) ∷ []

-- The bytes of a unit that completes no pair: none yet, where it may begin one.
alone : ℕ → List ℕ
alone u =
    if is_high_surrogate u then [] else if is_low_surrogate u then replacement else utf8_unit u

-- The bytes once `u` has come, where the high surrogate before it still waits.
step : Option ℕ → ℕ → List ℕ
unfolding alone
step none u = alone u
step (some high) u = if is_low_surrogate u then utf8_pair high u else replacement ++ alone u

utf8_from : Option ℕ → Text → List ℕ
unfolding step
utf8_from none [] = []
utf8_from (some high) [] = replacement
utf8_from waiting (u ∷ s) =
    step waiting u ++ utf8_from (if is_high_surrogate u then some u else none) s

unfoldable pub utf8 : Text → List ℕ
unfolding utf8_from utf8_pair replacement utf8_unit
utf8 s = utf8_from none s

step-length :
    (waiting : Option ℕ) (u : ℕ)
    → length (step waiting u) + (if is_high_surrogate u then 3 else 0)
      ≡ (if is_some waiting then 3 else 0) + unit_bytes (is_some waiting) u
unfolding step replacement utf8_unit utf8_pair unit_bytes
step-length none u = ground arith
step-length (some high) u = ground arith

-- One unit on, whether or not it may begin a pair.
length-step :
    (waiting : Option ℕ) (u : ℕ) (s : Text)
    → length (utf8_from (some u) s) ≡ 3 + bytes_from true s
    → length (utf8_from none s) ≡ 0 + bytes_from false s
    → length (step waiting u ++ utf8_from (if is_high_surrogate u then some u else none) s)
      ≡ (if is_some waiting then 3 else 0)
        + (unit_bytes (is_some waiting) u + bytes_from (is_high_surrogate u) s)
length-step waiting u s begins none_waits = elim (Bool-cases (is_high_surrogate u)) [
  | inl high ↦ rw high (
      omega (
        arith,
        length-append (step waiting u) (utf8_from (some u) s),
        rw high at (step-length waiting u),
      ))
  | inr low ↦ rw low (
      omega (
        arith,
        length-append (step waiting u) (utf8_from none s),
        rw low at (step-length waiting u),
      ))
]

length-utf8_from :
    (waiting : Option ℕ) (s : Text)
    → length (utf8_from waiting s)
      ≡ (if is_some waiting then 3 else 0) + bytes_from (is_some waiting) s
unfolding utf8_from replacement utf8_unit bytes_from
length-utf8_from none [] = refl
length-utf8_from (some high) [] = refl
length-utf8_from none (u ∷ s) =
    length-step none u s (length-utf8_from (some u) s) (length-utf8_from none s)
length-utf8_from (some high) (u ∷ s) =
    length-step (some high) u s (length-utf8_from (some u) s) (length-utf8_from none s)

-- The guard's byte count is the length of the encoded text.
pub length-utf8 : (s : Text) → length (utf8 s) ≡ byte_length s
unfolding utf8 byte_length
length-utf8 s = omega (arith, length-utf8_from none s)
