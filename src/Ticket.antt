-- ===== src/Ticket.antt =====
-- apps/lsp/src/ticket.ts: signed tickets for one WebSocket connection.
-- The clock and the random nonce are arguments of each call.
pub mod RoundTrip
use smart_c_playground.Prelude.{
  ℕ, suc, ◌+◌, ◌≤◌, Bool, true, false, not, ◌&&◌, ◌||◌, Option, none, some, List, [], ◌∷◌, ◌++◌,
  ltb, leb, ◌==◌, if◌then◌else◌, ◌>>=◌, take, drop,
}
use smart_c_playground.Text.{Text, codes, text_eq, index_of, last_index_of}
use smart_c_playground.Text.Utf8.{utf8}
use smart_c_playground.Json.{
  Number, pos, negsuc, fraction, Json, null, bool, num, str, arr, obj, Fields, end, field,
  as_object, as_string, prop, max_safe_integer,
}

-- TicketPayload. `version` is 1 by its type; times are safe integers.
pub record Payload : Type 0 where
  pub session_id : Text
  pub visitor_id : Text
  pub path : Text
  pub nonce : Text
  pub issued_at : Number
  pub expires_at : Number

-- IssuedTicket
pub record IssuedTicket : Type 0 where
  pub ticket : Text
  pub payload : Payload

-- What a ticket must be bound to.
pub record Expected : Type 0 where
  pub session_id : Text
  pub visitor_id : Text
  pub path : Text

-- TicketVerification
pub data Verification : Type 0 where
  valid : Payload → Verification
  invalid : Verification
  expired : Verification

-- What the service takes from Node: the HMAC under its secret as base64url, and JSON to and from
-- base64url, where `none` is a throw.
pub record Codec : Type 0 where
  pub sign : Text → Text
  pub encode : Json → Text
  pub decode : Text → Option Json

abbrev pub dot : ℕ
dot = 46

-- The JSON value of a payload, in the order of its fields.
pub payload_json : Payload → Json
payload_json p = obj (
    field (codes "version") (num (pos 1)) (
      field (codes "sessionId") (str p.session_id) (
        field (codes "visitorId") (str p.visitor_id) (
          field (codes "path") (str p.path) (
            field (codes "nonce") (str p.nonce) (
              field (codes "issuedAt") (num p.issued_at)
                (field (codes "expiresAt") (num p.expires_at) end)))))))

abbrev pub as_safe_integer : Option Json → Option Number
as_safe_integer (some (num (pos n))) = if ltb max_safe_integer n then none else some (pos n)
as_safe_integer (some (num (negsuc n))) =
    if ltb max_safe_integer (suc n) then none else some (negsuc n)
as_safe_integer (some (num fraction)) = none
as_safe_integer (some null) = none
as_safe_integer (some (bool b)) = none
as_safe_integer (some (str s)) = none
as_safe_integer (some (arr vs)) = none
as_safe_integer (some (obj fs)) = none
as_safe_integer none = none

-- value.version === 1
abbrev pub is_version_one : Option Json → Bool
is_version_one (some (num (pos n))) = n == 1
is_version_one (some (num (negsuc n))) = false
is_version_one (some (num fraction)) = false
is_version_one (some null) = false
is_version_one (some (bool b)) = false
is_version_one (some (str s)) = false
is_version_one (some (arr vs)) = false
is_version_one (some (obj fs)) = false
is_version_one none = false

-- The checks of parsePayload on a decoded value. (An array has no version, so it fails them too.)
pub check_payload : Option Json → Option Payload
check_payload raw = do
  fields ← as_object raw
  session_id ← as_string (prop fields "sessionId")
  visitor_id ← as_string (prop fields "visitorId")
  path ← as_string (prop fields "path")
  nonce ← as_string (prop fields "nonce")
  issued_at ← as_safe_integer (prop fields "issuedAt")
  expires_at ← as_safe_integer (prop fields "expiresAt")
  if is_version_one (prop fields "version")
      then some (record {
        session_id = session_id;
        visitor_id = visitor_id;
        path = path;
        nonce = nonce;
        issued_at = issued_at;
        expires_at = expires_at;
      })
      else none

-- n <= now
abbrev pub is_past : Number → ℕ → Bool
is_past (pos n) now = leb n now
is_past (negsuc n) now = true
is_past fraction now = false

-- Two buffers of the same length with the same bytes, which timingSafeEqual compares.
bytes_equal : List ℕ → List ℕ → Bool
bytes_equal = text_eq

-- The checks that follow the signature.
check_binding : Option Payload → Expected → ℕ → Verification
check_binding none expected now = invalid
check_binding (some payload) expected now =
    if not (text_eq payload.session_id expected.session_id)
      || not (text_eq payload.visitor_id expected.visitor_id)
      || not (text_eq payload.path expected.path)
    then invalid
    else if is_past payload.expires_at now
    then expired
    else valid payload

-- Where the ticket is to be cut: at its only dot, which is not its first unit.
separator : Text → Option ℕ
separator ticket = do
  first ← index_of ticket dot
  last ← last_index_of ticket dot
  if leb first 0 || not (first == last) then none else some first

module _ (c : Codec) where
  parse_payload : Text → Option Payload
  unfolding check_payload
  parse_payload encoded = check_payload (c.decode encoded)

  unfoldable pub issue :
      (session_id visitor_id path : Text) (ttl_ms now : ℕ) (nonce : Text) → IssuedTicket
  unfolding payload_json
  issue session_id visitor_id path ttl_ms now nonce =
      let payload : Payload = record {
        session_id = session_id;
        visitor_id = visitor_id;
        path = path;
        nonce = nonce;
        issued_at = pos now;
        expires_at = pos (now + ttl_ms);
      } in
      let encoded = c.encode (payload_json payload) in
      record { ticket = encoded ++ dot ∷ c.sign encoded; payload = payload }

  has_valid_signature : Text → Text → Bool
  unfolding bytes_equal
  has_valid_signature encoded received = bytes_equal (utf8 (c.sign encoded)) (utf8 received)

  pub verify : Text → Expected → ℕ → Verification
  unfolding separator has_valid_signature parse_payload check_binding
  verify ticket expected now = elim (separator ticket) [
    | none ↦ invalid
    | some cut ↦
        let encoded = take cut ticket in
        if has_valid_signature encoded (drop (suc cut) ticket)
        then check_binding (parse_payload encoded) expected now
        else invalid
  ]
