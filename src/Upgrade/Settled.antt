-- ===== src/Upgrade/Settled.antt =====
-- What becomes of a session that verifyClient of apps/lsp/src/websocket.ts has authorized.
use smart_c_playground.Prelude.{ℕ, ◌≡◌, refl, ◌∙◌, true, Option, none, some, String, drop}
use smart_c_playground.Text.{Text, text_eq_refl}
use smart_c_playground.Map.{get, set, delete, get-set_self, get-delete, Distinct, set-Distinct}
use smart_c_playground.Manager.State.{connected, Session, Config, Manager}
use smart_c_playground.Manager.Sessions.{refresh_idle_timer}
use smart_c_playground.Manager.Sessions.Tickets.{admitted}
use smart_c_playground.Manager.Closing.{close_session, perform_cleanup, attach_web_socket}
use smart_c_playground.Upgrade.{
  Request, Answer, accepted, rejected, Upgrades, drop_pending, attach_pending, verify_client,
  socket_closes, upgrade_fails, upgrade,
}
use smart_c_playground.Upgrade.Verified.{
  path, IsVerified, rejects, accepts, verify_client-IsVerified,
}

-- A session that is being closed is no longer among the sessions.
get-close_session :
    (m : Manager) (id : Text) (code : ℕ) (reason : String) (session : Session)
    → Distinct m.sessions
    → get m.cleanup_promises id ≡ none
    → get m.sessions id ≡ some session
    → get (close_session m id code reason).sessions id ≡ none
unfolding close_session perform_cleanup
get-close_session m id code reason session d c e =
    rw (c, e, perform_cleanup) (get-delete m.sessions id id d ∙ rw (text_eq_refl id) refl)

module _ (pathname_of : Text → Option Text) (o : Config) (allowed_origin : Text) (u : Upgrades)
    (request : Request) (now : ℕ) where
  abbrev id : Text
  id = drop 8 (path pathname_of o allowed_origin u request now)

  -- The request is no longer noted, and its session is connected to the socket.
  abbrev pub IsConnected : ℕ → Upgrades → Type 0
  IsConnected web_socket v =
      (get v.pending_authorizations request.name ≡ none)
      × ((session : Session) × (get v.manager.sessions id ≡ some session)
          × (session.state ≡ connected)
          × (session.web_socket ≡ some web_socket))

  -- The request is no longer noted, and its session is gone.
  abbrev pub IsGone : Upgrades → Type 0
  IsGone v = (get v.pending_authorizations request.name ≡ none) × (get v.manager.sessions id ≡ none)

  module _ (web_socket clangd later : ℕ) (distinct : Distinct u.pending_authorizations)
      (distinct_sessions : Distinct u.manager.sessions)
      (no_cleanup : get u.manager.cleanup_promises id ≡ none) where
    abbrev pub Settles : Upgrades → Type 0
    Settles v =
        IsConnected web_socket
          (upgrade pathname_of o allowed_origin v request web_socket clangd true later).0
        × IsGone (socket_closes pathname_of o allowed_origin v request)
        × IsGone (upgrade_fails pathname_of o allowed_origin v request)

    module _ (session : Session) where
      abbrev after_accept : Upgrades
      after_accept = record {
        manager = record u.manager {
          sessions = set u.manager.sessions id (admitted o session now);
        };
        pending_authorizations = set u.pending_authorizations request.name id;
      }

      is_pending : get after_accept.pending_authorizations request.name ≡ some id
      is_pending = get-set_self u.pending_authorizations request.name id

      is_dropped : get (delete after_accept.pending_authorizations request.name) request.name ≡ none
      is_dropped =
          get-delete after_accept.pending_authorizations request.name request.name
            (set-Distinct u.pending_authorizations request.name id distinct)
          ∙ rw (text_eq_refl request.name) refl

      is_admitted : get after_accept.manager.sessions id ≡ some (admitted o session now)
      is_admitted = get-set_self u.manager.sessions id (admitted o session now)

      drop-IsGone :
          (code : ℕ) (reason : String)
          → IsGone
              (drop_pending pathname_of o allowed_origin after_accept request (some id) code reason)
      unfolding drop_pending
      drop-IsGone code reason = (
        is_dropped,
        get-close_session after_accept.manager id code reason (admitted o session now)
            (set-Distinct u.manager.sessions id (admitted o session now) distinct_sessions)
            no_cleanup is_admitted,
      )

      attach-IsConnected :
          IsConnected web_socket
            (attach_pending pathname_of o allowed_origin after_accept request
              (some id)
              web_socket
              clangd
              true
              later).0
      unfolding attach_pending attach_web_socket refresh_idle_timer admitted
      attach-IsConnected =
          rw (is_admitted, attach_web_socket)
            (is_dropped, (_, get-set_self after_accept.manager.sessions id _, refl, refl))

      accepted-Settles : Settles after_accept
      unfolding upgrade socket_closes upgrade_fails
      accepted-Settles = rw is_pending (
        attach-IsConnected,
        drop-IsGone 1008 "WebSocket upgrade aborted",
        drop-IsGone 1011 "WebSocket upgrade failed",
      )

    verified-Settles :
        (r : Upgrades × Answer)
        → IsVerified pathname_of o allowed_origin u request now r
        → r.1 ≡ accepted
        → Settles r.0
    verified-Settles _ (rejects status code) e = absurd (never e)
      where
        never : rejected status code ≡ accepted → ⊥
        never q = cc
    verified-Settles _ (accepts ticket session payload a b c d e f g) h = accepted-Settles session

    -- No session stays half open: after `verify_client` has accepted a request, the upgrade
    -- connects the session to the WebSocket if clangd has streams, while a socket that closes and
    -- an upgrade that fails each remove the session; in each case the request is no longer noted.
    -- The noted requests and the session IDs are distinct, and the session has no cleanup in
    -- progress.
    pub verify_client-Settles :
        (verify_client pathname_of o allowed_origin u request now).1 ≡ accepted
        → Settles (verify_client pathname_of o allowed_origin u request now).0
    verify_client-Settles h =
        verified-Settles (verify_client pathname_of o allowed_origin u request now)
          (verify_client-IsVerified pathname_of o allowed_origin u request now) h
