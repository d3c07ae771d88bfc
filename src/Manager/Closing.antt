-- ===== src/Manager/Closing.antt =====
-- How LspSessionManager of apps/lsp/src/session-manager.ts connects and closes its sessions.
pub mod Shutdown
pub mod Everything
use smart_c_playground.Prelude.{
  ℕ, ◌+◌, Bool, true, false, not, ◌&&◌, ◌||◌, Option, none, some, List, [], ◌∷◌, map, String, leb,
  if◌then◌else◌, is_some,
}
use smart_c_playground.Text.{Text, text_eq}
use smart_c_playground.Map.{Map, get, set, delete, size}
use smart_c_playground.Ticket.{Verification, valid, invalid, expired, verify}
use smart_c_playground.Manager.State.{
  SessionState, waiting, authorized, connected, disposing, Session, Cleanup, Config, Manager,
}
use smart_c_playground.Manager.Sessions.{
  is_waiting, is_authorized, is_connected, refresh_idle_timer, expected_of,
}

-- The synchronous part of #performCleanup: what is left to be awaited stands in the cleanup.
unfoldable pub perform_cleanup : Manager → Text → ℕ → String → Manager
perform_cleanup m id close_code close_reason = elim (get m.sessions id) [
  | none ↦ record m {
    cleanup_promises =
        set m.cleanup_promises id
          (record { session = none; close_code = close_code; close_reason = close_reason });
  }
  | some session ↦
      let closing : Session = record session {
        state = disposing;
        idle_timer = none;
        absolute_timer = none;
        ticket_timer = none;
      } in
      record m {
        sessions = delete m.sessions id;
        cleanup_promises = set m.cleanup_promises id (record {
          session = some closing;
          close_code = close_code;
          close_reason = close_reason;
        });
      }
]

-- closeSession up to its first `await`: a cleanup in progress is joined.
unfoldable pub close_session : Manager → Text → ℕ → String → Manager
unfolding perform_cleanup
close_session m id close_code close_reason =
    if is_some (get m.cleanup_promises id) then m else perform_cleanup m id close_code close_reason

-- The end of closeSession.
unfoldable pub finish_cleanup : Manager → Text → Manager
finish_cleanup m id = record m { cleanup_promises = delete m.cleanup_promises id }

unfoldable pub close_all : Manager → List Text → Manager
unfolding close_session
close_all m [] = m
close_all m (id ∷ ids) = close_all (close_session m id 1012 "Service is restarting") ids

abbrev pub keys : {V : Type 0} → Map V → List Text
keys m = map (λ e. e.0) m

unfoldable pub shutdown : Manager → Manager
unfolding close_all
shutdown m = close_all (record m { shutting_down = true }) (keys m.sessions)

-- What a timer that fires does, `due` being the time it was set for.
unfoldable pub fire_timer : Manager → Text → Option ℕ → ℕ → String → Manager
unfolding close_session
fire_timer m id none now reason = m
fire_timer m id (some due) now reason = if leb due now then close_session m id 1008 reason else m

pub stats : Config → Manager → ℕ × ℕ
stats o m = (size m.sessions, o.max_sessions)

pub is_accepting_sessions : Manager → Bool
is_accepting_sessions m = not m.shutting_down

module _ (o : Config) where
  unfoldable pub touch_session : Manager → Text → ℕ → Manager
  unfolding refresh_idle_timer
  touch_session m id now = elim (get m.sessions id) [
    | none ↦ m
    | some session ↦
        if is_connected session.state
        then record m { sessions = set m.sessions id (refresh_idle_timer o session now) }
        else m
  ]

  -- The ticket names this session's nonce.
  pub proves_session : Session → Verification → Bool
  proves_session session invalid = false
  proves_session session expired = false
  proves_session session (valid payload) = text_eq payload.nonce session.ticket_nonce

  unfoldable pub discard_with_ticket :
      Manager → Text → Session → Text → Option Text → ℕ → Manager × Bool
  unfolding proves_session close_session
  discard_with_ticket m id session path none now = (m, false)
  discard_with_ticket m id session path (some ticket) now =
      if is_waiting session.state
        && proves_session session
            (verify o.ticket_service ticket (expected_of o id session path) now)
      then (close_session m id 1008 "Invalid WebSocket handshake", true)
      else (m, false)

  unfoldable pub discard_session_after_invalid_handshake :
      Manager → (id path : Text) → Option Text → ℕ → Manager × Bool
  unfolding discard_with_ticket
  discard_session_after_invalid_handshake m id path ticket now = elim (get m.sessions id) [
    | none ↦ (m, false)
    | some session ↦ discard_with_ticket m id session path ticket now
  ]

  -- The socket and the new clangd process are given by their numbers, and whether clangd has its
  -- streams. The second result says whether the session took the socket, or refused it with 1008.
  unfoldable pub attach_web_socket :
      Manager → Text → (web_socket clangd : ℕ) → (streams : Bool) → ℕ → Manager × Bool
  unfolding refresh_idle_timer close_session
  attach_web_socket m id web_socket clangd streams now = elim (get m.sessions id) [
    | none ↦ (m, false)
    | some session ↦
        let attached : Session = record session {
          state = connected;
          web_socket = some web_socket;
          clangd = some clangd;
        } in
        if not (is_authorized session.state)
        then (m, false)
        else if streams
        then (record m { sessions = set m.sessions id (refresh_idle_timer o attached now) }, true)
        else (
          close_session (record m { sessions = set m.sessions id attached }) id 1011
              "clangd streams are unavailable",
          true,
        )
  ]
