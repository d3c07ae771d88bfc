-- ===== src/Manager/Sessions/Tickets.antt =====
-- authorizeWebSocket of apps/lsp/src/session-manager.ts: who is let in, and that a ticket is used once.
use smart_c_playground.Prelude.{
  ℕ, ◌+◌, ◌≡◌, refl, inl, inr, false, not, Option, none, some, String, if_cases, Option-cases,
}
use smart_c_playground.Text.{Text, text_eq, text_eq_iff, text_eq_refl}
use smart_c_playground.Map.{get, set, get-set}
use smart_c_playground.Ticket.{Payload, Verification, valid, invalid, expired, verify}
use smart_c_playground.Ticket.RoundTrip.{IsBound, verify-IsBound}
use smart_c_playground.Manager.State.{
  Authorization, authorized_as, unauthorized, SessionState, waiting, authorized, connected,
  disposing, Session, Config, Manager,
}
use smart_c_playground.Manager.Sessions.{
  is_waiting, refresh_idle_timer, expected_of, check_nonce, check_ticket, authorize_web_socket,
}

-- The session once its ticket is used.
unfoldable pub admitted : Config → Session → ℕ → Session
admitted o session now = record session {
  state = authorized;
  ticket_timer = none;
  idle_timer = some (now + o.idle_ttl_ms);
}

-- What authorizeWebSocket returns. Only a waiting session is opened, by a ticket that is bound to it and
-- has its nonce; otherwise nothing changes.
pub data Admission (o : Config) (m : Manager) (id path : Text) (now : ℕ)
    : Option Text → Manager × Authorization → Type 0 where
  refused :
      {ticket : Option Text} (status : ℕ) (code : String)
      → Admission o m id path now ticket (m, unauthorized status code)
  admits :
      (ticket : Text) (session : Session) (payload : Payload)
      → get m.sessions id ≡ some session
      → session.state ≡ waiting
      → IsBound o.ticket_service ticket (expected_of o id session path) now payload
      → payload.nonce ≡ session.ticket_nonce
      → Admission o m id path now
          (some ticket)
          (record m { sessions = set m.sessions id (admitted o session now) }, authorized_as id)

waiting_of : (state : SessionState) → not (is_waiting state) ≡ false → state ≡ waiting
waiting_of waiting e = refl
waiting_of authorized e = cc
waiting_of connected e = cc
waiting_of disposing e = cc

module _ (o : Config) (m : Manager) (id path : Text) (now : ℕ) where
  check_nonce-Admission :
      (ticket : Text) (session : Session) (v : Verification)
      → get m.sessions id ≡ some session
      → session.state ≡ waiting
      → verify o.ticket_service ticket (expected_of o id session path) now ≡ v
      → Admission o m id path now (some ticket) (check_nonce o m id session now v)
  unfolding check_nonce admitted refresh_idle_timer
  check_nonce-Admission ticket session invalid e w f = refused 401 "invalid_ticket"
  check_nonce-Admission ticket session expired e w f = refused 410 "expired_ticket"
  check_nonce-Admission ticket session (valid payload) e w f =
      if_cases (Admission o m id path now (some ticket))
        (text_eq payload.nonce session.ticket_nonce)
        (λ same.
          admits ticket session payload e w
            (verify-IsBound o.ticket_service ticket (expected_of o id session path) now payload f)
            ((text_eq_iff payload.nonce session.ticket_nonce).0 same))
        (λ _. refused 401 "invalid_ticket")

  check_ticket-Admission :
      (session : Session) (ticket : Option Text)
      → get m.sessions id ≡ some session
      → Admission o m id path now ticket (check_ticket o m id session path ticket now)
  unfolding check_ticket
  check_ticket-Admission session none e = refused 401 "missing_ticket"
  check_ticket-Admission session (some ticket) e =
      if_cases (Admission o m id path now (some ticket)) (not (is_waiting session.state))
        (λ _. refused 409 "ticket_used")
        (λ w.
          check_nonce-Admission ticket session
            (verify o.ticket_service ticket (expected_of o id session path) now) e
            (waiting_of session.state w) refl)

  -- `authorize_web_socket` either refuses and leaves the manager as it is, or the session was
  -- waiting, the ticket is signed, not expired and bound to the session, its visitor and the path,
  -- and has the session's nonce, and then that session alone changes: it is authorized, its ticket
  -- timer is cleared and its idle timer starts again.
  pub authorize_web_socket-Admission :
      (ticket : Option Text)
      → Admission o m id path now ticket (authorize_web_socket o m id path ticket now)
  unfolding authorize_web_socket
  authorize_web_socket-Admission ticket = elim (Option-cases (get m.sessions id)) [
    | inl e ↦ rw (e, authorize_web_socket) (refused 404 "session_not_found")
    | inr (session, e) ↦ rw (e, authorize_web_socket) (check_ticket-Admission session ticket e)
  ]

  used :
      (r : Manager × Authorization) (ticket : Option Text) (who : Text)
      → Admission o m id path now ticket r
      → r.1 ≡ authorized_as who
      → (other_path other : Text) (later : ℕ)
      → authorize_web_socket o r.0 id other_path (some other) later
        ≡ (r.0, unauthorized 409 "ticket_used")
  unfolding authorize_web_socket check_ticket admitted
  used _ ticket who (refused status code) e other_path other later = absurd (never e)
    where
      never : unauthorized status code ≡ authorized_as who → ⊥
      never q = cc
  used _ _ who (admits ticket session payload e w b n) f other_path other later =
      rw (get-set m.sessions id id (admitted o session now), text_eq_refl id, authorize_web_socket)
        refl

  -- After `authorize_web_socket` has admitted someone to a session, any further ticket for that
  -- session, on any path and at any time, is refused with 409 `ticket_used` and changes nothing.
  pub authorize_web_socket_once :
      (ticket : Option Text) (who : Text)
      → (authorize_web_socket o m id path ticket now).1 ≡ authorized_as who
      → (other_path other : Text) (later : ℕ)
      → let after = (authorize_web_socket o m id path ticket now).0 in
        authorize_web_socket o after id other_path (some other) later
        ≡ (after, unauthorized 409 "ticket_used")
  authorize_web_socket_once ticket who =
      used (authorize_web_socket o m id path ticket now) ticket who
        (authorize_web_socket-Admission ticket)
