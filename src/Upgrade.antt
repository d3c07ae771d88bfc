-- ===== src/Upgrade.antt =====
-- apps/lsp/src/websocket.ts: how a request to upgrade becomes the socket of a session.
pub mod Verified
pub mod Spent
pub mod Settled
pub mod Created
use smart_c_playground.Prelude.{
  ℕ, zero, suc, ◌+◌, ◌≡◌, Bool, true, false, not, ◌&&◌, ◌||◌, Option, none, some, List, [], ◌∷◌,
  ◌++◌, String, leb, ltb, ◌==◌, if◌then◌else◌, take, drop, is_some,
}
use smart_c_playground.Text.{Text, codes, text_eq, index_of, split, trim}
use smart_c_playground.Json.{Json, pos, num, str, obj, end, field}
use smart_c_playground.Map.{Map, get, set, delete}
use smart_c_playground.Manager.State.{Authorization, authorized_as, unauthorized, Config, Manager}
use smart_c_playground.Manager.Sessions.{authorize_web_socket}
use smart_c_playground.Manager.Closing.{
  close_session, discard_session_after_invalid_handshake, attach_web_socket,
}

abbrev pub lsp_ticket_cookie_name : Text
lsp_ticket_cookie_name = codes "smart_c_lsp_ticket"

-- The classes of the units in WEBSOCKET_PATH_PATTERN.
pub data UnitClass : Type 0 where
  literal : ℕ → UnitClass
  hex : UnitClass
  version : UnitClass
  variant : UnitClass

abbrev lower : ℕ → ℕ
lower u = if leb 65 u && leb u 90 then u + 32 else u

abbrev is_hex : ℕ → Bool
is_hex u = leb 48 u && leb u 57 || leb 97 u && leb u 102

-- Whether a unit is of a class, up to ASCII case: the flag i.
unfoldable pub is_of : UnitClass → ℕ → Bool
is_of (literal v) u = lower u == v
is_of hex u = is_hex (lower u)
is_of version u = leb 49 u && leb u 56
is_of variant u = u == 56 || u == 57 || lower u == 97 || lower u == 98

unfoldable pub matches : List UnitClass → Text → Bool
unfolding is_of
matches [] [] = true
matches [] (u ∷ text) = false
matches (c ∷ cs) [] = false
matches (c ∷ cs) (u ∷ text) = is_of c u && matches cs text

unfoldable pub literals : Text → List UnitClass
literals [] = []
literals (u ∷ text) = literal u ∷ literals text

abbrev hexes : ℕ → List UnitClass → List UnitClass
hexes zero cs = cs
hexes (suc n) cs = hex ∷ hexes n cs

abbrev dash : UnitClass
dash = literal 45

-- [0-9a-f]{8}-[0-9a-f]{4}-[1-8][0-9a-f]{3}-[89ab][0-9a-f]{3}-[0-9a-f]{12}
unfoldable pub session_id_pattern : List UnitClass
session_id_pattern =
    hexes 8
      (dash ∷ hexes 4 (dash ∷ version ∷ hexes 3 (dash ∷ variant ∷ hexes 3 (dash ∷ hexes 12 []))))

abbrev pub path_prefix : Text
path_prefix = codes "/ws/lsp/"

-- WEBSOCKET_PATH_PATTERN
unfoldable pub is_session_path : Text → Bool
unfolding matches literals session_id_pattern
is_session_path path = matches (literals path_prefix ++ session_id_pattern) path

-- What the handlers read of a request; `name` stands for its identity as the key of a WeakMap.
pub record Request : Type 0 where
  pub name : Text
  pub url : Option Text
  pub origin : Option Text
  pub cookie : Option Text

pub cookie_in : List Text → Text → Option Text
cookie_in [] name = none
cookie_in (part ∷ parts) name =
    let rest = cookie_in parts name in
    elim (index_of part 61) [
      | none ↦ rest
      | some separator ↦
          if ltb separator 1
          then rest
          else if text_eq (trim (take separator part)) name
          then some (trim (drop (suc separator) part))
          else rest
    ]

-- readCookie
unfoldable pub read_cookie : Option Text → Text → Option Text
unfolding cookie_in
read_cookie none name = none
read_cookie (some cookie_header) name = cookie_in (split cookie_header 59) name

-- isAllowedOrigin
unfoldable pub is_allowed_origin : Option Text → Text → Bool
is_allowed_origin none allowed_origin = false
is_allowed_origin (some received_origin) allowed_origin = text_eq received_origin allowed_origin

-- createProblemBody, before JSON.stringify
unfoldable pub create_problem_body : (status : ℕ) → (code : Text) → Json
create_problem_body status code = obj (
    field (codes "type") (str (codes "urn:smart-c:problem:" ++ code)) (
      field (codes "title") (str (codes "WebSocket接続を受理できません"))
        (field (codes "status") (num (pos status)) end)))

-- The answers to a client whose request does not become a socket.
pub data Answer : Type 0 where
  accepted : Answer
  rejected : (status : ℕ) → (code : String) → Answer

-- What becomes of the socket that an upgrade gives.
pub data Taken : Type 0 where
  attached : (session_id : Text) → Taken
  closed : (close_code : ℕ) → (reason : String) → Taken

-- The manager and pendingAuthorizations, by the names of the requests.
pub record Upgrades : Type 0 where
  pub manager : Manager
  pub pending_authorizations : Map Text

-- `pathname_of` is new URL(text, "http://localhost").pathname, and `none` a throw.
module _ (pathname_of : Text → Option Text) (o : Config) (allowed_origin : Text) where
  abbrev or_root : Option Text → Text
  or_root none = codes "/"
  or_root (some path) = path

  -- parsePath
  unfoldable pub parse_path : Option Text → Text
  parse_path raw_url = or_root (pathname_of (or_root raw_url))

  -- parseSessionPath: the path and the session's ID.
  unfoldable pub parse_session_path : Option Text → Option (Text × Text)
  unfolding parse_path
  parse_session_path raw_url =
      if is_session_path (parse_path raw_url)
      then some (parse_path raw_url, drop 8 (parse_path raw_url))
      else none

  pub authorize_path :
      Manager → Request → Option (Text × Text) → (now : ℕ) → Manager × Authorization
  authorize_path m request none now = (m, unauthorized 404 "session_not_found")
  authorize_path m request (some (path, session_id)) now =
      authorize_web_socket o m session_id path (read_cookie request.cookie lsp_ticket_cookie_name)
        now

  -- authorizeUpgradeRequest
  unfoldable pub authorize_upgrade_request : Manager → Request → (now : ℕ) → Manager × Authorization
  unfolding authorize_path parse_session_path
  authorize_upgrade_request m request now =
      if is_allowed_origin request.origin allowed_origin
      then authorize_path m request (parse_session_path request.url) now
      else (m, unauthorized 403 "origin_not_allowed")

  pub record_authorization : Upgrades → Request → Manager × Authorization → Upgrades × Answer
  record_authorization u request (m, unauthorized status code) =
      (record u { manager = m }, rejected status code)
  record_authorization u request (m, authorized_as session_id) = (
    record {
      manager = m;
      pending_authorizations = set u.pending_authorizations request.name session_id;
    },
    accepted,
  )

  -- verifyClient
  unfoldable pub verify_client : Upgrades → Request → (now : ℕ) → Upgrades × Answer
  unfolding record_authorization
  verify_client u request now =
      record_authorization u request (authorize_upgrade_request u.manager request now)

  pub drop_pending : Upgrades → Request → Option Text → (code : ℕ) → String → Upgrades
  drop_pending u request none code reason = u
  drop_pending u request (some session_id) code reason = record {
    manager = close_session u.manager session_id code reason;
    pending_authorizations = delete u.pending_authorizations request.name;
  }

  -- The listener of close that verifyClient puts on the request's socket.
  unfoldable pub socket_closes : Upgrades → Request → Upgrades
  unfolding drop_pending
  socket_closes u request =
      drop_pending u request (get u.pending_authorizations request.name) 1008
        "WebSocket upgrade aborted"

  -- The catch of the listener of upgrade.
  unfoldable pub upgrade_fails : Upgrades → Request → Upgrades
  unfolding drop_pending
  upgrade_fails u request =
      drop_pending u request (get u.pending_authorizations request.name) 1011
        "WebSocket upgrade failed"

  pub attach_pending :
      Upgrades
      → Request
      → Option Text
      → (web_socket clangd : ℕ) → (streams : Bool) → (now : ℕ) → Upgrades × Taken
  attach_pending u request none web_socket clangd streams now =
      (u, closed 1008 "Session authorization is missing")
  attach_pending u request (some session_id) web_socket clangd streams now =
      let (manager, is_attached) =
        attach_web_socket o u.manager session_id web_socket clangd streams now in
      (
        record {
          manager = manager;
          pending_authorizations = delete u.pending_authorizations request.name;
        },
        if is_attached then attached session_id else closed 1008 "Session is not authorized",
      )

  -- The callback of handleUpgrade.
  unfoldable pub upgrade :
      Upgrades → Request → (web_socket clangd : ℕ) → (streams : Bool) → (now : ℕ) → Upgrades × Taken
  unfolding attach_pending
  upgrade u request web_socket clangd streams now =
      attach_pending u request (get u.pending_authorizations request.name) web_socket clangd streams
        now

  pub discard_path : Manager → Request → Option (Text × Text) → (now : ℕ) → Manager
  discard_path m request none now = m
  discard_path m request (some (path, session_id)) now =
      (discard_session_after_invalid_handshake o m session_id path
        (read_cookie request.cookie lsp_ticket_cookie_name) now).0

  -- The listener of wsClientError, which answers 400.
  unfoldable pub client_error : Upgrades → Request → (now : ℕ) → Upgrades
  unfolding discard_path parse_session_path
  client_error u request now = record u {
    manager = discard_path u.manager request (parse_session_path request.url) now;
  }
