-- ===== src/Upgrade/Verified.antt =====
-- Who gets through verifyClient of apps/lsp/src/websocket.ts, and what becomes of the session.
use smart_c_playground.Prelude.{
  ℕ, ◌≡◌, refl, ap, inl, inr, true, Option, none, some, String, drop, Bool-cases,
}
use smart_c_playground.Text.{Text, text_eq_iff}
use smart_c_playground.Map.{get, set}
use smart_c_playground.Ticket.{Payload}
use smart_c_playground.Ticket.RoundTrip.{IsBound}
use smart_c_playground.Manager.State.{Authorization, waiting, Session, Config, Manager}
use smart_c_playground.Manager.Sessions.{expected_of}
use smart_c_playground.Manager.Sessions.Tickets.{
  admitted, Admission, refused, admits, authorize_web_socket-Admission,
}
use smart_c_playground.Upgrade.{
  lsp_ticket_cookie_name, is_session_path, Request, read_cookie, is_allowed_origin, Answer,
  accepted, rejected, Upgrades, parse_path, parse_session_path, authorize_path,
  authorize_upgrade_request, record_authorization, verify_client,
}

module _ (pathname_of : Text → Option Text) (o : Config) (allowed_origin : Text) (u : Upgrades)
    (request : Request) (now : ℕ) where
  abbrev pub path : Text
  path = parse_path pathname_of o allowed_origin request.url

  -- verifyClient rejects and leaves everything as it is, or the request comes from the allowed origin to
  -- the path of a session that waits, and its cookie has that session's ticket. Then the session is
  -- authorized and the request noted.
  pub data IsVerified : Upgrades × Answer → Type 0 where
    rejects : (status : ℕ) (code : String) → IsVerified (u, rejected status code)
    accepts :
        (ticket : Text) (session : Session) (payload : Payload)
        → request.origin ≡ some allowed_origin
        → is_session_path path ≡ true
        → read_cookie request.cookie lsp_ticket_cookie_name ≡ some ticket
        → get u.manager.sessions (drop 8 path) ≡ some session
        → session.state ≡ waiting
        → IsBound o.ticket_service ticket (expected_of o (drop 8 path) session path) now payload
        → payload.nonce ≡ session.ticket_nonce
        → IsVerified (
          record {
            manager = record u.manager {
              sessions = set u.manager.sessions (drop 8 path) (admitted o session now);
            };
            pending_authorizations = set u.pending_authorizations request.name (drop 8 path);
          },
          accepted,
        )

  origin_of :
      (origin : Option Text)
      → is_allowed_origin origin allowed_origin ≡ true
      → origin ≡ some allowed_origin
  unfolding is_allowed_origin
  origin_of none h = cc
  origin_of (some origin) h = ap (λ (t : Text). some t) ((text_eq_iff origin allowed_origin).0 h)

  admission-IsVerified :
      (ticket : Option Text) (r : Manager × Authorization)
      → request.origin ≡ some allowed_origin
      → is_session_path path ≡ true
      → read_cookie request.cookie lsp_ticket_cookie_name ≡ ticket
      → Admission o u.manager (drop 8 path) path now ticket r
      → IsVerified (record_authorization pathname_of o allowed_origin u request r)
  unfolding record_authorization
  admission-IsVerified ticket _ e f c (refused status code) = rejects status code
  admission-IsVerified _ _ e f c (admits ticket session payload g w b n) =
      accepts ticket session payload e f c g w b n

  -- `verify_client` either rejects and leaves everything as it is, or the request comes from the
  -- allowed origin to the path of a session that waits, and its cookie is a ticket that is signed,
  -- not expired, bound to that session, its visitor and the path, and has the session's nonce. Then
  -- that session alone is authorized and the request is noted.
  pub verify_client-IsVerified :
      IsVerified (verify_client pathname_of o allowed_origin u request now)
  unfolding verify_client authorize_upgrade_request authorize_path parse_session_path
      record_authorization
  verify_client-IsVerified = elim (Bool-cases (is_allowed_origin request.origin allowed_origin)) [
    | inr e ↦ rw e (rejects 403 "origin_not_allowed")
    | inl e ↦ elim (Bool-cases (is_session_path path)) [
      | inr f ↦ rw (e, f) (rejects 404 "session_not_found")
      | inl f ↦
          rw (e, f)
            (admission-IsVerified (read_cookie request.cookie lsp_ticket_cookie_name) _
              (origin_of request.origin e) f refl
              (authorize_web_socket-Admission o u.manager (drop 8 path) path now
                (read_cookie request.cookie lsp_ticket_cookie_name)))
    ]
  ]
