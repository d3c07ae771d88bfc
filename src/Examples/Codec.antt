-- ===== src/Examples/Codec.antt =====
-- A codec for tickets that loses nothing: every value has its own text, and no text has a dot.
use smart_c_playground.Prelude.{
  ℕ, suc, zero, ◌+◌, ◌-◌, ◌≤◌, ◌≡◌, refl, ap, ◌∙◌, true, false, Option, none, some, ◌>>=◌, [], ◌∷◌,
  arith, ◌==◌, if◌then◌else◌, length,
}
use smart_c_playground.Text.{Text, includes}
use smart_c_playground.Json.{
  pos, negsuc, fraction, Json, null, bool, num, str, arr, obj, Items, nil, cons, Fields, end, field,
}
use smart_c_playground.Ticket.{Codec, dot}
use smart_c_playground.Ticket.RoundTrip.{IsFaithful}

-- A number is written as one unit above the dot.
unfoldable pub put_text : Text → Text → Text
put_text [] rest = rest
put_text (u ∷ s) rest = (u + 47) ∷ put_text s rest

get_text : ℕ → Text → Option (Text × Text)
get_text zero t = some ([], t)
get_text (suc n) [] = none
get_text (suc n) (u ∷ t) = get_text n t >>= λ r. some ((u - 47) ∷ r.0, r.1)

unshift : (n : ℕ) → n + 47 - 47 ≡ n
unshift n = omega arith

get_text-put_text : (s rest : Text) → get_text (length s) (put_text s rest) ≡ some (s, rest)
unfolding get_text put_text
get_text-put_text [] rest = refl
get_text-put_text (u ∷ s) rest = rw (get_text-put_text s rest, unshift u) refl

unfoldable mutual
  pub put : Json → Text → Text
  put null rest = 50 ∷ rest
  put (bool true) rest = 51 ∷ rest
  put (bool false) rest = 52 ∷ rest
  put (num (pos n)) rest = 53 ∷ (n + 47) ∷ rest
  put (num (negsuc n)) rest = 54 ∷ (n + 47) ∷ rest
  put (num fraction) rest = 55 ∷ rest
  put (str s) rest = 56 ∷ (length s + 47) ∷ put_text s rest
  put (arr vs) rest = 57 ∷ put_items vs rest
  put (obj fs) rest = 58 ∷ put_fields fs rest

  pub put_items : Items → Text → Text
  put_items nil rest = 50 ∷ rest
  put_items (cons v vs) rest = 51 ∷ put v (put_items vs rest)

  pub put_fields : Fields → Text → Text
  put_fields end rest = 50 ∷ rest
  put_fields (field k v fs) rest = 51 ∷ (length k + 47) ∷ put_text k (put v (put_fields fs rest))

abbrev counted_text : Text → Option (Text × Text)
counted_text [] = none
counted_text (n ∷ t) = get_text (n - 47) t

abbrev read_pos : Text → Option (Json × Text)
read_pos [] = none
read_pos (u ∷ t) = some (num (pos (u - 47)), t)

abbrev read_negsuc : Text → Option (Json × Text)
read_negsuc [] = none
read_negsuc (u ∷ t) = some (num (negsuc (u - 47)), t)

mutual
  pub read : ℕ → Text → Option (Json × Text)
  read zero t = none
  read (suc n) [] = none
  read (suc n) (tag ∷ t) =
      if tag == 50
      then some (null, t)
      else if tag == 51
      then some (bool true, t)
      else if tag == 52
      then some (bool false, t)
      else if tag == 53
      then read_pos t
      else if tag == 54
      then read_negsuc t
      else if tag == 55
      then some (num fraction, t)
      else if tag == 56
      then (counted_text t >>= λ r. some (str r.0, r.1))
      else if tag == 57
      then (read_items n t >>= λ r. some (arr r.0, r.1))
      else (read_fields n t >>= λ r. some (obj r.0, r.1))

  read_items : ℕ → Text → Option (Items × Text)
  read_items zero t = none
  read_items (suc n) [] = none
  read_items (suc n) (tag ∷ t) =
      if tag == 50
      then some (nil, t)
      else (read n t >>= λ r. read_items n r.1 >>= λ q. some (cons r.0 q.0, q.1))

  read_fields : ℕ → Text → Option (Fields × Text)
  read_fields zero t = none
  read_fields (suc n) [] = none
  read_fields (suc n) (tag ∷ t) =
      if tag == 50
      then some (end, t)
      else (counted_text t >>= λ k.
          read n k.1 >>= λ r. read_fields n r.1 >>= λ q. some (field k.0 r.0 q.0, q.1))

-- How much fuel a value needs.
mutual
  weight : Json → ℕ
  weight null = 1
  weight (bool b) = 1
  weight (num n) = 1
  weight (str s) = 1
  weight (arr vs) = suc (weight_items vs)
  weight (obj fs) = suc (weight_fields fs)

  weight_items : Items → ℕ
  weight_items nil = 1
  weight_items (cons v vs) = suc (weight v + weight_items vs)

  weight_fields : Fields → ℕ
  weight_fields end = 1
  weight_fields (field k v fs) = suc (weight v + weight_fields fs)

mutual
  unfolding read put weight

  read-put : (v : Json) (n : ℕ) (rest : Text) → weight v ≤ n → read n (put v rest) ≡ some (v, rest)
  read-put null zero rest h = ground arith
  read-put null (suc n) rest h = refl
  read-put (bool true) zero rest h = ground arith
  read-put (bool true) (suc n) rest h = refl
  read-put (bool false) zero rest h = ground arith
  read-put (bool false) (suc n) rest h = refl
  read-put (num (pos m)) zero rest h = ground arith
  read-put (num (pos m)) (suc n) rest h = rw (unshift m) refl
  read-put (num (negsuc m)) zero rest h = ground arith
  read-put (num (negsuc m)) (suc n) rest h = rw (unshift m) refl
  read-put (num fraction) zero rest h = ground arith
  read-put (num fraction) (suc n) rest h = refl
  read-put (str s) zero rest h = ground arith
  read-put (str s) (suc n) rest h = rw (unshift (length s), get_text-put_text s rest) refl
  read-put (arr vs) zero rest h = ground arith
  read-put (arr vs) (suc n) rest h = rw (read_items-put_items vs n rest (omega arith)) refl
  read-put (obj fs) zero rest h = ground arith
  read-put (obj fs) (suc n) rest h = rw (read_fields-put_fields fs n rest (omega arith)) refl

  read_items-put_items :
      (vs : Items) (n : ℕ) (rest : Text)
      → weight_items vs ≤ n
      → read_items n (put_items vs rest) ≡ some (vs, rest)
  read_items-put_items nil zero rest h = ground arith
  read_items-put_items nil (suc n) rest h = refl
  read_items-put_items (cons v vs) zero rest h = ground arith
  read_items-put_items (cons v vs) (suc n) rest h =
      rw
        (
          read-put v n (put_items vs rest) (omega arith),
          read_items-put_items vs n rest (omega arith),
        )
        refl

  read_fields-put_fields :
      (fs : Fields) (n : ℕ) (rest : Text)
      → weight_fields fs ≤ n
      → read_fields n (put_fields fs rest) ≡ some (fs, rest)
  read_fields-put_fields end zero rest h = ground arith
  read_fields-put_fields end (suc n) rest h = refl
  read_fields-put_fields (field k v fs) zero rest h = ground arith
  read_fields-put_fields (field k v fs) (suc n) rest h =
      rw
        (
          unshift (length k),
          get_text-put_text k (put v (put_fields fs rest)),
          read-put v n (put_fields fs rest) (omega arith),
          read_fields-put_fields fs n rest (omega arith),
        )
        refl

length-put_text : (s rest : Text) → length rest ≤ length (put_text s rest)
unfolding put_text
length-put_text [] rest = omega arith
length-put_text (u ∷ s) rest = omega (arith, length-put_text s rest)

mutual
  unfolding put weight

  weight-le : (v : Json) (rest : Text) → weight v + length rest ≤ length (put v rest)
  weight-le null rest = omega arith
  weight-le (bool true) rest = omega arith
  weight-le (bool false) rest = omega arith
  weight-le (num (pos m)) rest = omega arith
  weight-le (num (negsuc m)) rest = omega arith
  weight-le (num fraction) rest = omega arith
  weight-le (str s) rest = omega (arith, length-put_text s rest)
  weight-le (arr vs) rest = omega (arith, weight_items-le vs rest)
  weight-le (obj fs) rest = omega (arith, weight_fields-le fs rest)

  weight_items-le :
      (vs : Items) (rest : Text) → weight_items vs + length rest ≤ length (put_items vs rest)
  weight_items-le nil rest = omega arith
  weight_items-le (cons v vs) rest =
      omega (arith, weight-le v (put_items vs rest), weight_items-le vs rest)

  weight_fields-le :
      (fs : Fields) (rest : Text) → weight_fields fs + length rest ≤ length (put_fields fs rest)
  weight_fields-le end rest = omega arith
  weight_fields-le (field k v fs) rest = omega (
    arith,
    length-put_text k (put v (put_fields fs rest)),
    weight-le v (put_fields fs rest),
    weight_fields-le fs rest,
  )

above : (u : ℕ) (t : Text) → includes ((u + 47) ∷ t) dot ≡ includes t dot
unfolding includes
above u t = ground arith

includes-put_text : (s rest : Text) → includes (put_text s rest) dot ≡ includes rest dot
unfolding put_text
includes-put_text [] rest = refl
includes-put_text (u ∷ s) rest = above u (put_text s rest) ∙ includes-put_text s rest

mutual
  unfolding put includes

  includes-put : (v : Json) (rest : Text) → includes (put v rest) dot ≡ includes rest dot
  includes-put null rest = refl
  includes-put (bool true) rest = refl
  includes-put (bool false) rest = refl
  includes-put (num (pos m)) rest = above m rest
  includes-put (num (negsuc m)) rest = above m rest
  includes-put (num fraction) rest = refl
  includes-put (str s) rest = above (length s) (put_text s rest) ∙ includes-put_text s rest
  includes-put (arr vs) rest = includes-put_items vs rest
  includes-put (obj fs) rest = includes-put_fields fs rest

  includes-put_items :
      (vs : Items) (rest : Text) → includes (put_items vs rest) dot ≡ includes rest dot
  includes-put_items nil rest = refl
  includes-put_items (cons v vs) rest =
      includes-put v (put_items vs rest) ∙ includes-put_items vs rest

  includes-put_fields :
      (fs : Fields) (rest : Text) → includes (put_fields fs rest) dot ≡ includes rest dot
  includes-put_fields end rest = refl
  includes-put_fields (field k v fs) rest =
      above (length k) (put_text k (put v (put_fields fs rest)))
      ∙ includes-put_text k (put v (put_fields fs rest))
      ∙ includes-put v (put_fields fs rest)
      ∙ includes-put_fields fs rest

weight-positive : (v : Json) → 1 ≤ weight v
unfolding weight
weight-positive null = omega arith
weight-positive (bool b) = omega arith
weight-positive (num n) = omega arith
weight-positive (str s) = omega arith
weight-positive (arr vs) = omega arith
weight-positive (obj fs) = omega arith

unfoldable pub codec : Codec
codec = record {
  sign = λ t. put_text t [];
  encode = λ v. put v [];
  decode = λ t. read (length t) t >>= λ r. some r.0;
}

pub codec-IsFaithful : IsFaithful codec
unfolding codec includes
codec-IsFaithful = record {
  decode-encode = λ v. rw (read-put v (length (put v [])) [] (omega (arith, weight-le v []))) refl;
  encode_dotless = λ v. includes-put v [];
  encode_nonempty =
      λ v e. ground (arith, weight-le v [], weight-positive v, ap (λ t. length {A = ℕ} t) e);
  sign_dotless = λ t. includes-put_text t [];
}
