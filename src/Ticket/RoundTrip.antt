-- ===== src/Ticket/RoundTrip.antt =====
-- What a valid ticket is, and that an issued one is valid until it expires.
use smart_c_playground.Prelude.{
  ap, ◌∙◌, ◌≢◌, ℕ, suc, ◌+◌, ◌≤◌, ◌≡◌, refl, inl, inr, Bool, true, false, not, ◌&&◌, ◌||◌, Option,
  none, some, [], ◌∷◌, ◌++◌, arith, leb, ◌==◌, if◌then◌else◌, >>=-eq-some, take, drop, length,
  Option-cases, Bool-cases,
}
use smart_c_playground.Text.{
  Text, codes, text_eq, text_eq_iff, text_eq_refl, index_of, last_index_of, includes,
}
use smart_c_playground.Text.Utf8.{utf8}
use smart_c_playground.Text.Search.{
  index_of-split, index_of-append, last_index_of-append, take-length, drop-length,
}
use smart_c_playground.Json.{Number, pos, negsuc, fraction, Json, num, prop, max_safe_integer}
use smart_c_playground.Ticket.{
  Payload, as_safe_integer, IssuedTicket, Expected, valid, invalid, expired, Codec, dot,
  payload_json, check_payload, is_past, parse_payload, issue, has_valid_signature, check_binding,
  separator, verify,
}

-- A payload that is bound to the session and has not expired.
pub data IsBound (c : Codec) (ticket : Text) (expected : Expected) (now : ℕ) (p : Payload)
    : Type 0 where
  bound :
      (encoded signature : Text)
      → ticket ≡ encoded ++ dot ∷ signature
      → utf8 (c.sign encoded) ≡ utf8 signature
      → check_payload (c.decode encoded) ≡ some p
      → p.session_id ≡ expected.session_id
      → p.visitor_id ≡ expected.visitor_id
      → p.path ≡ expected.path
      → is_past p.expires_at now ≡ false
      → IsBound c ticket expected now p

check_binding-facts :
    (o : Option Payload) (expected : Expected) (now : ℕ) (p : Payload)
    → check_binding o expected now ≡ valid p
    → (o ≡ some p)
      × (p.session_id ≡ expected.session_id)
      × (p.visitor_id ≡ expected.visitor_id)
      × (p.path ≡ expected.path)
      × (is_past p.expires_at now ≡ false)
unfolding check_binding
check_binding-facts none expected now p e = ground arith
check_binding-facts (some q) expected now p e = ground (
  arith,
  text_eq_iff q.session_id expected.session_id,
  text_eq_iff q.visitor_id expected.visitor_id,
  text_eq_iff q.path expected.path,
)

separator-facts :
    (ticket : Text) (cut : ℕ) → separator ticket ≡ some cut → index_of ticket dot ≡ some cut
unfolding separator
separator-facts ticket cut e =
    let (first, f, e₁) = >>=-eq-some (index_of ticket dot) _ e in
    let (last, l, e₂) = >>=-eq-some (last_index_of ticket dot) _ e₁ in
    f ∙ ap some (chosen first last e₂)
  where
    chosen :
        (first last : ℕ)
        → (if leb first 0 || not (first == last) then none else some first) ≡ some cut
        → first ≡ cut
    chosen first last q = ground arith

module _ (c : Codec) where
  -- If `verify` finds a ticket valid, then the ticket is an encoded part, a dot and a signature
  -- whose bytes are those of the encoded part's signature, the encoded part decodes to the payload,
  -- the payload's session, visitor and path are the expected ones, and it has not expired.
  pub verify-IsBound :
      (ticket : Text) (expected : Expected) (now : ℕ) (p : Payload)
      → verify c ticket expected now ≡ valid p
      → IsBound c ticket expected now p
  unfolding verify
  verify-IsBound ticket expected now p e = elim (Option-cases (separator ticket)) [
    | inl f ↦ absurd (never (rw (f, verify) at e))
    | inr (cut, f) ↦ elim (Bool-cases (signed cut)) [
      | inr bad ↦ absurd (never (rw (f, verify, bad) at e))
      | inl good ↦
          let (o, s, v, w, x) =
            check_binding-facts (parse_payload c (take cut ticket)) expected now p
              (rw (f, verify, good) at e) in
          bound (take cut ticket) (drop (suc cut) ticket)
            (index_of-split ticket dot cut (separator-facts ticket cut f))
            ((text_eq_iff _ _).0 good) o s v w x
    ]
  ]
    where
      never : invalid ≡ valid p → ⊥
      never q = cc

      signed : ℕ → Bool
      signed cut = has_valid_signature c (take cut ticket) (drop (suc cut) ticket)

-- What JSON, base64url and the HMAC are relied on for: decoding undoes encoding, and there is no dot in
-- either part of a ticket.
pub record IsFaithful (c : Codec) : Type 0 where
  pub decode-encode : (v : Json) → c.decode (c.encode v) ≡ some v
  pub encode_dotless : (v : Json) → includes (c.encode v) dot ≡ false
  pub encode_nonempty : (v : Json) → c.encode v ≢ []
  pub sign_dotless : (t : Text) → includes (c.sign t) dot ≡ false

as_safe_integer_of_le :
    (n : Number) (a : ℕ)
    → n ≡ pos a
    → a ≤ max_safe_integer
    → as_safe_integer (some (num n)) ≡ some n
as_safe_integer_of_le (pos m) a e h = ground arith
as_safe_integer_of_le (negsuc m) a e h = ground arith
as_safe_integer_of_le fraction a e h = ground arith

check_payload-payload_json :
    (p : Payload) (a b : ℕ)
    → p.issued_at ≡ pos a
    → p.expires_at ≡ pos b
    → a ≤ max_safe_integer
    → b ≤ max_safe_integer
    → check_payload (some (payload_json p)) ≡ some p
unfolding check_payload payload_json prop codes text_eq
check_payload-payload_json p a b i e h k =
    rw (as_safe_integer_of_le p.issued_at a i h) (rw (as_safe_integer_of_le p.expires_at b e k))

module _ (c : Codec) (faithful : IsFaithful c) where
  encoded_cut :
      (v : Json) (signature : Text)
      → includes signature dot ≡ false
      → separator (c.encode v ++ dot ∷ signature) ≡ some (length (c.encode v))
  unfolding separator
  encoded_cut v signature h =
      rw (index_of-append (c.encode v) signature dot (faithful.encode_dotless v)) (
        rw (last_index_of-append (c.encode v) signature dot h)
          (not_first (c.encode v) (faithful.encode_nonempty v)))
    where
      not_first :
          (s : Text)
          → s ≢ []
          → (if leb (length s) 0 || not (length s == length s) then none else some (length s))
            ≡ some (length s)
      not_first [] n = absurd (n refl)
      not_first (a ∷ s) n = ground arith

  verify_at_cut :
      (encoded signature : Text) (expected : Expected) (later : ℕ)
      → separator (encoded ++ dot ∷ signature) ≡ some (length encoded)
      → verify c (encoded ++ dot ∷ signature) expected later ≡ (
          if has_valid_signature c encoded signature
          then check_binding (parse_payload c encoded) expected later
          else invalid)
  unfolding verify
  verify_at_cut encoded signature expected later cut =
      rw (cut, verify)
        (rw (take-length encoded (dot ∷ signature), drop-length encoded signature dot))

  module _ (session_id visitor_id path : Text) (ttl_ms now : ℕ) (nonce : Text) where
    abbrev issued : IssuedTicket
    issued = issue c session_id visitor_id path ttl_ms now nonce

    abbrev holder : Expected
    holder = record { session_id = session_id; visitor_id = visitor_id; path = path }

    verify_bound :
        (expected : Expected) (later : ℕ)
        → now + ttl_ms ≤ max_safe_integer
        → verify c issued.ticket expected later ≡ check_binding (some issued.payload) expected later
    unfolding verify issue
    verify_bound expected later h =
        let v = payload_json issued.payload in
        verify_at_cut (c.encode v) (c.sign (c.encode v)) expected later
          (encoded_cut v (c.sign (c.encode v)) (faithful.sign_dotless (c.encode v)))
        ∙ (rw (text_eq_refl (utf8 (c.sign (c.encode v)))) (
            ap (λ o. check_binding (check_payload o) expected later) (faithful.decode-encode v)
            ∙ ap (λ o. check_binding o expected later)
                (check_payload-payload_json issued.payload now (now + ttl_ms) refl refl
                  (omega arith) h)))

    -- Where the codec is faithful and the expiry is a safe integer, `verify` of an issued ticket
    -- for its own session, visitor and path gives its payload before its expiry and `expired` from
    -- then on.
    pub verify-issue :
        (later : ℕ)
        → now + ttl_ms ≤ max_safe_integer
        → verify c issued.ticket holder later
          ≡ (if leb (now + ttl_ms) later then expired else valid issued.payload)
    unfolding issue check_binding
    verify-issue later h =
        rw (verify_bound holder later h)
          (rw (text_eq_refl session_id, text_eq_refl visitor_id, text_eq_refl path))

    -- Where the codec is faithful and the expiry is a safe integer, `verify` of an issued ticket is
    -- invalid, at any time, for an expectation that differs in the session, the visitor or the
    -- path.
    pub verify-issue_other :
        (expected : Expected) (later : ℕ)
        → now + ttl_ms ≤ max_safe_integer
        → expected ≢ holder
        → verify c issued.ticket expected later ≡ invalid
    unfolding issue check_binding
    verify-issue_other expected later h n =
        rw (verify_bound expected later h) (elim (Bool-cases all_equal) [
          | inl same ↦ absurd (n (equal same))
          | inr other ↦ ground arith
        ])
      where
        all_equal : Bool
        all_equal =
            text_eq session_id expected.session_id
            && text_eq visitor_id expected.visitor_id
            && text_eq path expected.path

        equal : all_equal ≡ true → expected ≡ holder
        equal q =
            let s : expected.session_id ≡ session_id =
              ground (arith, text_eq_iff session_id expected.session_id) in
            let v : expected.visitor_id ≡ visitor_id =
              ground (arith, text_eq_iff visitor_id expected.visitor_id) in
            let p : expected.path ≡ path = ground (arith, text_eq_iff path expected.path) in
            λ i. record { session_id = s i; visitor_id = v i; path = p i }
