-- ===== src/Manager/System.antt =====
-- The LSP session manager with what runs between its synchronous parts: the creations whose files are
-- being written, as a step relation. Any interleaving of requests, sockets, timers and cleanups is a
-- sequence of steps.
pub mod Owners
pub mod Quotas
pub mod Admission
pub mod Stopped
use smart_c_playground.Prelude.{ℕ, ◌≡◌, Bool, Option, none, some, [], String}
use smart_c_playground.Text.{Text}
use smart_c_playground.Map.{Map, get, set, delete}
use smart_c_playground.Manager.State.{ok, Request, Config, Manager, init}
use smart_c_playground.Manager.Quota.{reserve}
use smart_c_playground.Manager.Sessions.{finish_create, authorize_web_socket}
use smart_c_playground.Manager.Closing.{
  close_session, finish_cleanup, shutdown, fire_timer, touch_session,
  discard_session_after_invalid_handshake, attach_web_socket,
}

-- The requests whose createSession is between its two parts, by session ID.
pub record System : Type 0 where
  pub manager : Manager
  pub creating : Map Request

abbrev pub start : System
start = record { manager = init; creating = [] }

abbrev pub with_manager : System → Manager → System
with_manager s m = record s { manager = m }

module _ (o : Config) (s : System) where
  open s use {manager as m, creating}

  -- A new ID is the ID of no creation in progress.
  pub data Step : System → Type 0 where
    begins :
        (id : Text) (request : Request) (reserved : Manager)
        → get creating id ≡ none
        → reserve o m request.visitor_id request.client_ip ≡ ok reserved
        → Step (record { manager = reserved; creating = set creating id request })
    finishes :
        (id : Text) (request : Request) (written : Bool) (now : ℕ) (nonce : Text)
        → get creating id ≡ some request
        → Step (record {
          manager = (finish_create o m id request written now nonce).0;
          creating = delete creating id;
        })
    authorizes :
        (id path : Text) (ticket : Option Text) (now : ℕ)
        → Step (with_manager s (authorize_web_socket o m id path ticket now).0)
    discards :
        (id path : Text) (ticket : Option Text) (now : ℕ)
        → Step (with_manager s (discard_session_after_invalid_handshake o m id path ticket now).0)
    attaches :
        (id : Text) (web_socket clangd : ℕ) (streams : Bool) (now : ℕ)
        → Step (with_manager s (attach_web_socket o m id web_socket clangd streams now).0)
    touches : (id : Text) (now : ℕ) → Step (with_manager s (touch_session o m id now))
    closes :
        (id : Text) (code : ℕ) (reason : String)
        → Step (with_manager s (close_session m id code reason))
    cleans : (id : Text) → Step (with_manager s (finish_cleanup m id))
    fires :
        (id : Text) (timer : Option ℕ) (now : ℕ) (reason : String)
        → Step (with_manager s (fire_timer m id timer now reason))
    shuts_down : Step (with_manager s (shutdown m))

pub data Reach (o : Config) (s : System) : System → Type 0 where
  here : Reach o s s
  next : {t u : System} → Reach o s t → Step o t u → Reach o s u
