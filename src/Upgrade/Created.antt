-- ===== src/Upgrade/Created.antt =====
-- The ticket of a new session, from createSession of apps/lsp/src/session-manager.ts through the browser's
-- cookie to verifyClient of apps/lsp/src/websocket.ts.
use smart_c_playground.Prelude.{
  Bool, ℕ, ◌+◌, ◌≤◌, ◌<◌, ◌≡◌, refl, sym, ◌∙◌, true, false, ◌||◌, Option, none, some, List, [], ◌∷◌,
  ◌++◌, arith, ltb, ◌==◌, drop, length, if_cases, Bool-cases, inl, inr,
}
use mathlib.Core.Bool.{false≢true}
use smart_c_playground.Text.{
  Text, codes, text_eq, text_eq_refl, includes, split, trim, trim_start, trim_end,
}
use smart_c_playground.Text.Search.{index_of-append, take-length, drop-length}
use smart_c_playground.Map.{Map}
use smart_c_playground.Json.{max_safe_integer}
use smart_c_playground.Ticket.RoundTrip.{IsFaithful}
use smart_c_playground.Manager.State.{Authorization, authorized_as, unauthorized, Config, Manager}
use smart_c_playground.Manager.State as ManagerState
use smart_c_playground.Manager.Sessions.{web_socket_path_of}
use smart_c_playground.Manager.Sessions.Issued.{created, creating_manager, created_is_admitted}
use smart_c_playground.Upgrade.{
  lsp_ticket_cookie_name, is_session_path, Request, cookie_in, read_cookie, is_allowed_origin,
  accepted, Upgrades, parse_path, parse_session_path, authorize_path, authorize_upgrade_request,
  record_authorization, verify_client,
}

-- The cookies that may follow in a header.
abbrev pub tail_of : Option Text → Text
tail_of none = []
tail_of (some others) = 59 ∷ others

abbrev parts_of : Option Text → List Text
parts_of none = []
parts_of (some others) = split others 59

split-cons :
    (text : Text) (u : ℕ) → (part : Text) × (parts : List Text) × (split text u ≡ part ∷ parts)
unfolding split
split-cons [] u = ([], [], refl)
split-cons (a ∷ text) u =
    let (part, parts, e) = split-cons text u in
    rw (e, split)
      (if_cases (λ (ps : List Text). (q : Text) × (qs : List Text) × (ps ≡ q ∷ qs)) (a == u)
        (λ _. ([], part ∷ parts, refl)) (λ _. (a ∷ part, parts, refl)))

split-head :
    (text : Text) (tail : Option Text)
    → includes text 59 ≡ false
    → split (text ++ tail_of tail) 59 ≡ text ∷ parts_of tail
unfolding split includes
split-head [] none h = refl
split-head [] (some others) h = let (part, parts, e) = split-cons others 59 in rw (e, split) refl
split-head (a ∷ text) tail h = elim (Bool-cases (a == 59)) [
  | inl same ↦ absurd (false≢true (sym h ∙ rw same refl))
  | inr other ↦ rw (split-head text tail (rw other at h), split) (rw other refl)
]

-- What a browser sends of a ticket, with the cookies before it, each a name and a value, and perhaps others
-- after it.
unfoldable pub cookie_header : (earlier : List (Text × Text)) → (ticket : Text) → Option Text → Text
cookie_header [] ticket others = (lsp_ticket_cookie_name ++ 61 ∷ ticket) ++ tail_of others
cookie_header ((name, value) ∷ earlier) ticket others =
    (name ++ 61 ∷ value) ++ 59 ∷ 32 ∷ cookie_header earlier ticket others

-- A cookie of another name, with no semicolon in it.
abbrev pub IsOther : Text × Text → Type 0
IsOther (name, value) =
    (includes name 59 ≡ false)
    × (includes name 61 ≡ false)
    × (includes value 59 ≡ false)
    × (text_eq (trim name) lsp_ticket_cookie_name ≡ false)

abbrev pub AreOthers : List (Text × Text) → Type 0
AreOthers [] = Unit
AreOthers (cookie ∷ cookies) = IsOther cookie × AreOthers cookies

includes-append : (s t : Text) (u : ℕ) → includes (s ++ t) u ≡ (includes s u || includes t u)
unfolding includes
includes-append [] t u = refl
includes-append (a ∷ s) t u = ground (arith, includes-append s t u)

-- A part of the header whose name is the ticket's, perhaps after a space.
IsTicketName : Text → Type 0
IsTicketName name =
    (includes name 59 ≡ false)
    × (includes name 61 ≡ false)
    × (trim name ≡ lsp_ticket_cookie_name)
    × (ltb (length name) 1 ≡ false)

plain-IsTicketName : IsTicketName lsp_ticket_cookie_name
unfolding IsTicketName codes includes trim trim_start trim_end
plain-IsTicketName = (refl, refl, refl, refl)

spaced-IsTicketName : IsTicketName (32 ∷ lsp_ticket_cookie_name)
unfolding IsTicketName codes includes trim trim_start trim_end
spaced-IsTicketName = (refl, refl, refl, refl)

cookie_in-ticket :
    (name ticket : Text) (parts : List Text)
    → IsTicketName name
    → trim ticket ≡ ticket
    → cookie_in ((name ++ 61 ∷ ticket) ∷ parts) lsp_ticket_cookie_name ≡ some ticket
unfolding cookie_in IsTicketName
cookie_in-ticket name ticket parts n t =
    rw (index_of-append name ticket 61 n.1, cookie_in)
      (rw
        (
          take-length name (61 ∷ ticket),
          drop-length name ticket 61,
          n.2,
          n.3,
          text_eq_refl lsp_ticket_cookie_name,
          t,
        )
        refl)

cookie_in-other :
    (name value : Text) (parts : List Text)
    → includes name 61 ≡ false
    → text_eq (trim name) lsp_ticket_cookie_name ≡ false
    → cookie_in ((name ++ 61 ∷ value) ∷ parts) lsp_ticket_cookie_name
      ≡ cookie_in parts lsp_ticket_cookie_name
unfolding cookie_in
cookie_in-other name value parts clean other =
    rw (index_of-append name value 61 clean, cookie_in)
      (rw (take-length name (61 ∷ value), other)
        (if_cases (λ (r : Option Text). r ≡ cookie_in parts lsp_ticket_cookie_name)
          (ltb (length name) 1) (λ _. refl) (λ _. refl)))

part-clean :
    (name value : Text)
    → includes name 59 ≡ false
    → includes value 59 ≡ false
    → includes (name ++ 61 ∷ value) 59 ≡ false
unfolding includes
part-clean name value n v = includes-append name (61 ∷ value) 59 ∙ rw (n, v) refl

read-ticket :
    (name ticket : Text) (others : Option Text)
    → IsTicketName name
    → includes ticket 59 ≡ false
    → trim ticket ≡ ticket
    → cookie_in (split ((name ++ 61 ∷ ticket) ++ tail_of others) 59) lsp_ticket_cookie_name
      ≡ some ticket
unfolding IsTicketName
read-ticket name ticket others n h t =
    rw (split-head (name ++ 61 ∷ ticket) others (part-clean name ticket n.0 h))
      (cookie_in-ticket name ticket (parts_of others) n t)

read-other :
    (name value rest : Text)
    → includes name 59 ≡ false
    → includes name 61 ≡ false
    → includes value 59 ≡ false
    → text_eq (trim name) lsp_ticket_cookie_name ≡ false
    → cookie_in (split ((name ++ 61 ∷ value) ++ 59 ∷ rest) 59) lsp_ticket_cookie_name
      ≡ cookie_in (split rest 59) lsp_ticket_cookie_name
read-other name value rest n clean v other =
    rw (split-head (name ++ 61 ∷ value) (some rest) (part-clean name value n v))
      (cookie_in-other name value (split rest 59) clean other)

-- A header that begins with a space is what follows a semicolon.
abbrev spaced : Bool → Text → Text
spaced false text = text
spaced true text = 32 ∷ text

read-header :
    (after_semicolon : Bool) (earlier : List (Text × Text)) (ticket : Text) (others : Option Text)
    → AreOthers earlier
    → includes ticket 59 ≡ false
    → trim ticket ≡ ticket
    → cookie_in
        (split (spaced after_semicolon (cookie_header earlier ticket others)) 59)
        lsp_ticket_cookie_name
      ≡ some ticket
unfolding cookie_header includes trim trim_start
read-header false [] ticket others a h t =
    read-ticket lsp_ticket_cookie_name ticket others plain-IsTicketName h t
read-header true [] ticket others a h t =
    read-ticket (32 ∷ lsp_ticket_cookie_name) ticket others spaced-IsTicketName h t
read-header false ((name, value) ∷ earlier) ticket others a h t =
    read-other name value (32 ∷ cookie_header earlier ticket others) a.0.0 a.0.1 a.0.2 a.0.3
    ∙ read-header true earlier ticket others a.1 h t
read-header true ((name, value) ∷ earlier) ticket others a h t =
    read-other (32 ∷ name) value (32 ∷ cookie_header earlier ticket others) a.0.0 a.0.1 a.0.2 a.0.3
    ∙ read-header true earlier ticket others a.1 h t

pub read_cookie-cookie_header :
    (earlier : List (Text × Text)) (ticket : Text) (others : Option Text)
    → AreOthers earlier
    → includes ticket 59 ≡ false
    → trim ticket ≡ ticket
    → read_cookie (some (cookie_header earlier ticket others)) lsp_ticket_cookie_name ≡ some ticket
unfolding read_cookie
read_cookie-cookie_header earlier ticket others a h t =
    read-header false earlier ticket others a h t

module _ (pathname_of : Text → Option Text) (o : Config) (allowed_origin : Text)
    (faithful : IsFaithful o.ticket_service) (m : Manager) (id : Text)
    (create : ManagerState.Request) (now : ℕ) (nonce : Text) where
  abbrev new_ticket : Text
  new_ticket = (created o faithful m id create now nonce).1.ticket

  abbrev new_manager : Manager
  new_manager = creating_manager o faithful m id create now nonce

  -- The request that a browser makes with the new ticket, from the allowed origin.
  abbrev pub browsers_request :
      (name : Text)
      → (url : Option Text) → (earlier : List (Text × Text)) → (others : Option Text) → Request
  browsers_request name url earlier others = record {
    name = name;
    url = url;
    origin = some allowed_origin;
    cookie = some (cookie_header earlier new_ticket others);
  }

  drop-path : drop 8 (web_socket_path_of o id) ≡ id
  unfolding web_socket_path_of codes
  drop-path = refl

  module _ (pending : Map Text) where
    abbrev upgrades : Upgrades
    upgrades = record { manager = new_manager; pending_authorizations = pending }

    accepted-of :
        (request : Request) (r : Manager × Authorization)
        → r.1 ≡ authorized_as id
        → (record_authorization pathname_of o allowed_origin upgrades request r).1 ≡ accepted
    unfolding record_authorization
    accepted-of request (n, authorized_as session_id) h = refl
    accepted-of request (n, unauthorized status code) h = absurd (never h)
      where
        never : unauthorized status code ≡ authorized_as id → ⊥
        never q = cc

    -- Where the codec is faithful and the expiry is a safe integer, the ticket of a new session
    -- opens it: `verify_client` accepts a request from the allowed origin to the session's path
    -- whose cookie header has the ticket, after any number of cookies of other names and before any
    -- others, before the ticket expires. The session's path is one that the pattern matches, the
    -- ticket has no semicolon and no space at its ends, and the cookies before it have no semicolon
    -- and no equals sign in a name.
    pub created_ticket_is_accepted :
        (name : Text) (url : Option Text) (earlier : List (Text × Text)) (others : Option Text)
        (later : ℕ)
        → AreOthers earlier
        → parse_path pathname_of o allowed_origin url ≡ web_socket_path_of o id
        → is_session_path (web_socket_path_of o id) ≡ true
        → includes new_ticket 59 ≡ false
        → trim new_ticket ≡ new_ticket
        → now + o.ticket_ttl_ms ≤ max_safe_integer
        → later < now + o.ticket_ttl_ms
        → (verify_client pathname_of o allowed_origin upgrades
            (browsers_request name url earlier others)
            later).1
          ≡ accepted
    unfolding verify_client authorize_upgrade_request is_allowed_origin authorize_path
        parse_session_path
    created_ticket_is_accepted name url earlier others later apart path valid clean trimmed safe
          early =
        let request = browsers_request name url earlier others in
        accepted-of request
          (authorize_upgrade_request pathname_of o allowed_origin new_manager request later)
          (rw (text_eq_refl allowed_origin) (
            rw (path, parse_session_path)
              (rw (valid, drop-path)
                (rw (read_cookie-cookie_header earlier new_ticket others apart clean trimmed)
                  (created_is_admitted o faithful m id create now nonce later safe early)))))
