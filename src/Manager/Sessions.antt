-- ===== src/Manager/Sessions.antt =====
-- The operations of LspSessionManager in apps/lsp/src/session-manager.ts. Each is one synchronous part:
-- what runs after an `await` is an operation of its own. Times are milliseconds.
pub mod Tickets
pub mod Issued
use smart_c_playground.Prelude.{
  ℕ, ◌+◌, Bool, true, false, not, ◌&&◌, ◌||◌, Option, none, some, List, [], ◌∷◌, ◌++◌, map, String,
  if◌then◌else◌, is_some,
}
use smart_c_playground.Text.{Text, codes, text_eq}
use smart_c_playground.Map.{Map, get, set, delete, size}
use smart_c_playground.Ticket.{
  IssuedTicket, Expected, Verification, valid, invalid, expired, issue, verify,
}
use smart_c_playground.Manager.State.{
  Result, ok, limit_error, Authorization, authorized_as, unauthorized, SessionState, waiting,
  authorized, connected, disposing, Request, Reservation, Session, Cleanup, Config, Manager,
  create_clangd_document_uri, create_clangd_workspace_uri,
}
use smart_c_playground.Manager.Quota.{release}

abbrev pub is_waiting : SessionState → Bool
is_waiting waiting = true
is_waiting authorized = false
is_waiting connected = false
is_waiting disposing = false

abbrev pub is_authorized : SessionState → Bool
is_authorized waiting = false
is_authorized authorized = true
is_authorized connected = false
is_authorized disposing = false

abbrev pub is_connected : SessionState → Bool
is_connected waiting = false
is_connected authorized = false
is_connected connected = true
is_connected disposing = false

-- Object.fromEntries: a name that comes again takes the later value.
from_entries : Map Text → List (Text × Text) → Map Text
from_entries made [] = made
from_entries made ((key, value) ∷ rest) = from_entries (set made key value) rest

module _ (o : Config) where
  -- #createManagedSession
  unfoldable pub create_managed_session :
      (id : Text) (request : Request) (workspace_path : Text) (document_uris : Map Text)
      (workspace_uri web_socket_path ticket_nonce : Text) (now : ℕ)
      → Session
  create_managed_session id request workspace_path document_uris workspace_uri web_socket_path
        ticket_nonce now =
      record {
        id = id;
        visitor_id = request.visitor_id;
        client_ip = request.client_ip;
        workspace_path = workspace_path;
        document_uris = document_uris;
        workspace_uri = workspace_uri;
        web_socket_path = web_socket_path;
        ticket_nonce = ticket_nonce;
        state = waiting;
        idle_timer = some (now + o.idle_ttl_ms);
        absolute_timer = some (now + o.absolute_ttl_ms);
        ticket_timer = some (now + o.ticket_ttl_ms);
        web_socket = none;
        clangd = none;
      }

  unfoldable pub web_socket_path_of : Text → Text
  web_socket_path_of id = codes "/ws/lsp/" ++ id

  abbrev reservation_of : Request → Reservation
  reservation_of request = record { visitor_id = request.visitor_id; client_ip = request.client_ip }

  -- The session that createSession makes once its files are written, and its ticket.
  unfoldable pub made_session : Text → Request → ℕ → Text → Session × IssuedTicket
  unfolding create_managed_session from_entries web_socket_path_of
  made_session id request now nonce =
      let workspace_path = o.join o.workspace_root id in
      let sandbox_enabled = is_some o.clangd_sandbox_path in
      let path = web_socket_path_of id in
      let issued = issue o.ticket_service id request.visitor_id path o.ticket_ttl_ms now nonce in
      let uris : Map Text = from_entries [] (
        map
          (λ file. (
            file.name,
            create_clangd_document_uri o.paths workspace_path sandbox_enabled file.name,
          ))
          request.files) in
      (
        create_managed_session id request workspace_path uris
            (create_clangd_workspace_uri o.paths workspace_path sandbox_enabled) path
            issued.payload.nonce now,
        issued,
      )

  -- The end of createSession, after the files were written or an error was thrown.
  unfoldable pub finish_create :
      Manager
      → Text
      → Request
      → (written : Bool) → ℕ
      → Text
      → Manager × Option (Session × IssuedTicket)
  unfolding made_session
  finish_create m id request written now nonce =
      let made = made_session id request now nonce in
      if written
      then (
        release (record m { sessions = set m.sessions id made.0 }) (reservation_of request),
        some made,
      )
      else (release m (reservation_of request), none)

  -- #refreshIdleTimer
  unfoldable pub refresh_idle_timer : Session → ℕ → Session
  refresh_idle_timer session now = record session { idle_timer = some (now + o.idle_ttl_ms) }

  abbrev pub expected_of : Text → Session → Text → Expected
  expected_of id session path = record {
    session_id = id;
    visitor_id = session.visitor_id;
    path = path;
  }

  unfoldable pub check_nonce : Manager → Text → Session → ℕ → Verification → Manager × Authorization
  unfolding refresh_idle_timer
  check_nonce m id session now invalid = (m, unauthorized 401 "invalid_ticket")
  check_nonce m id session now expired = (m, unauthorized 410 "expired_ticket")
  check_nonce m id session now (valid payload) =
      if text_eq payload.nonce session.ticket_nonce
      then (
        record m {
          sessions =
              set m.sessions id (
                refresh_idle_timer (record session { state = authorized; ticket_timer = none })
                  now);
        },
        authorized_as id,
      )
      else (m, unauthorized 401 "invalid_ticket")

  unfoldable pub check_ticket :
      Manager → Text → Session → (path : Text) → Option Text → ℕ → Manager × Authorization
  unfolding check_nonce
  check_ticket m id session path none now = (m, unauthorized 401 "missing_ticket")
  check_ticket m id session path (some ticket) now =
      if not (is_waiting session.state)
      then (m, unauthorized 409 "ticket_used")
      else check_nonce m id session now
          (verify o.ticket_service ticket (expected_of id session path) now)

  unfoldable pub authorize_web_socket :
      Manager → (id path : Text) → Option Text → ℕ → Manager × Authorization
  unfolding check_ticket
  authorize_web_socket m id path ticket now = elim (get m.sessions id) [
    | none ↦ (m, unauthorized 404 "session_not_found")
    | some session ↦ check_ticket m id session path ticket now
  ]
