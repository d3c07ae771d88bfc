-- ===== src/Manager/Sessions/Issued.antt =====
-- The ticket that createSession of apps/lsp/src/session-manager.ts returns, at authorizeWebSocket.
use smart_c_playground.Prelude.{ℕ, ◌+◌, ◌≤◌, ◌<◌, ◌≡◌, refl, ap, ◌∙◌, true, some, arith}
use smart_c_playground.Text.{Text, text_eq_refl}
use smart_c_playground.Map.{get, get-set}
use smart_c_playground.Json.{max_safe_integer}
use smart_c_playground.Ticket.{IssuedTicket, valid, issue, verify}
use smart_c_playground.Ticket.RoundTrip.{IsFaithful, verify-issue}
use smart_c_playground.Manager.State.{authorized_as, Request, Session, Config, Manager}
use smart_c_playground.Manager.Quota.{release}
use smart_c_playground.Manager.Sessions.{
  expected_of, check_nonce, check_ticket, authorize_web_socket, web_socket_path_of, made_session,
  create_managed_session, finish_create,
}

module _ (o : Config) (faithful : IsFaithful o.ticket_service) (m : Manager) (id : Text)
    (request : Request) (now : ℕ) (nonce : Text) where
  abbrev pub created : Session × IssuedTicket
  created = made_session o id request now nonce

  abbrev pub creating_manager : Manager
  creating_manager = (finish_create o m id request true now nonce).0

  get-creating_manager : get creating_manager.sessions id ≡ some created.0
  unfolding finish_create release
  get-creating_manager = get-set m.sessions id id created.0 ∙ rw (text_eq_refl id) refl

  verify-created :
      (later : ℕ)
      → now + o.ticket_ttl_ms ≤ max_safe_integer
      → later < now + o.ticket_ttl_ms
      → verify o.ticket_service created.1.ticket
          (expected_of o id created.0 (web_socket_path_of o id))
          later
        ≡ valid created.1.payload
  unfolding made_session create_managed_session
  verify-created later safe early =
      verify-issue o.ticket_service faithful id request.visitor_id (web_socket_path_of o id)
        o.ticket_ttl_ms now nonce later safe
      ∙ ground arith

  -- Where the codec is faithful and the expiry is a safe integer, the ticket that a creation
  -- returns opens its session on the session's path at any time before the ticket expires.
  pub created_is_admitted :
      (later : ℕ)
      → now + o.ticket_ttl_ms ≤ max_safe_integer
      → later < now + o.ticket_ttl_ms
      → (authorize_web_socket o creating_manager id
          (web_socket_path_of o id)
          (some created.1.ticket)
          later).1
        ≡ authorized_as id
  unfolding authorize_web_socket check_ticket check_nonce made_session create_managed_session issue
  created_is_admitted later safe early =
      rw (get-creating_manager, authorize_web_socket)
        (ap (λ v. (check_nonce o creating_manager id created.0 later v).1)
            (verify-created later safe early)
          ∙ rw (text_eq_refl nonce) refl)
