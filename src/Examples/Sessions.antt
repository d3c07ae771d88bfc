-- ===== src/Examples/Sessions.antt =====
-- The session manager and its tickets at one session.
use smart_c_playground.Prelude.{◌≡◌, ◌++◌, refl, true, none, some, [], ◌∷◌, arith}
use smart_c_playground.Text.{Text, codes, text_eq}
use smart_c_playground.Map.{get, set, delete, total}
use smart_c_playground.Ticket.{Expected, expired, IssuedTicket, issue, verify}
use smart_c_playground.Ticket.RoundTrip.{IsBound, verify-IsBound, verify-issue}
use smart_c_playground.Manager.State.{
  authorized_as, unauthorized, Request, Paths, Config, Manager, configure, init,
}
use smart_c_playground.Manager.Quota.{
  reserve, release, count_sessions, count_by_visitor, count_by_ip,
}
use smart_c_playground.Manager.Sessions.{
  made_session, finish_create, authorize_web_socket, web_socket_path_of,
}
use smart_c_playground.Manager.Sessions.Tickets.{authorize_web_socket_once}
use smart_c_playground.Manager.Sessions.Issued.{created_is_admitted}
use smart_c_playground.Manager.Closing.{shutdown}
use smart_c_playground.Manager.Closing.Shutdown.{IsClosable}
use smart_c_playground.Manager.Closing.Everything.{restart, shutdown_closes}
use smart_c_playground.Manager.System.{System, start, Step, begins, finishes, here, next}
use smart_c_playground.Manager.System.Quotas.{HoldsQuotas}
use smart_c_playground.Manager.System.Admission.{Reach-HoldsQuotas}
use smart_c_playground.Manager.System.Stopped.{late_creation_survives}
use smart_c_playground.Examples.Codec.{codec, codec-IsFaithful}

abbrev pub paths : Paths
paths = record {
  join = λ a b. a ++ 47 ∷ b;
  resolve = λ path. path;
  path_to_file_url = λ path. codes "file://" ++ path;
}

abbrev pub config : Config
config = configure paths codec (record {
  workspace_root = codes "/tmp/lsp";
  clangd_sandbox_path = none;
  max_sessions = none;
  max_sessions_per_visitor = none;
  max_sessions_per_ip = none;
  idle_ttl_ms = none;
  absolute_ttl_ms = none;
  ticket_ttl_ms = none;
})

abbrev id : Text
id = codes "s1"

abbrev nonce : Text
nonce = codes "n"

abbrev pub request : Request
request = record { files = []; visitor_id = codes "v"; client_ip = codes "192.0.2.1" }

abbrev reserved : Manager
reserved = record init {
  pending_count = 1;
  pending_visitors = (codes "v", 1) ∷ [];
  pending_ips = (codes "192.0.2.1", 1) ∷ [];
}

abbrev pub creating : System
creating = record { manager = reserved; creating = set [] id request }

begins_creating : Step config start creating
unfolding get reserve init configure total set count_sessions count_by_visitor count_by_ip
begins_creating = begins id request reserved refl refl

abbrev pub created : System
created = record {
  manager = (finish_create config reserved id request true 0 nonce).0;
  creating = [];
}

finishes_creating : Step config creating created
unfolding get set delete text_eq codes
finishes_creating = finishes id request true 0 nonce refl

abbrev pub waiting_manager : Manager
waiting_manager = (finish_create config init id request true 0 nonce).0

Reach-HoldsQuotas_example : HoldsQuotas config created
Reach-HoldsQuotas_example =
    Reach-HoldsQuotas config created (next (next here begins_creating) finishes_creating)

abbrev ticket : Text
ticket = (made_session config id request 0 nonce).1.ticket

is_admitted :
    (authorize_web_socket config waiting_manager id
      (web_socket_path_of config id)
      (some ticket)
      10).1
    ≡ authorized_as id
unfolding configure
is_admitted =
    created_is_admitted config codec-IsFaithful init id request 0 nonce 10 (omega arith)
      (omega arith)

authorize_web_socket_once_example :
    let after =
      (authorize_web_socket config waiting_manager id
        (web_socket_path_of config id)
        (some ticket)
        10).0 in
    authorize_web_socket config after id (web_socket_path_of config id) (some ticket) 11
    ≡ (after, unauthorized 409 "ticket_used")
authorize_web_socket_once_example =
    authorize_web_socket_once config waiting_manager id (web_socket_path_of config id) 10
      (some ticket) id is_admitted (web_socket_path_of config id) ticket 11

waiting_manager-IsClosable : IsClosable waiting_manager
unfolding finish_create release init get set
waiting_manager-IsClosable = record { distinct = (refl, tt); settled = λ k session g. refl }

shutdown_closes_example :
    (get (shutdown waiting_manager).sessions id ≡ none)
    × (get (shutdown waiting_manager).cleanup_promises id
        ≡ some (restart (made_session config id request 0 nonce).0))
unfolding finish_create release init get set text_eq codes
shutdown_closes_example =
    shutdown_closes waiting_manager waiting_manager-IsClosable id
      (made_session config id request 0 nonce).0 refl

-- A second creation, while the first session waits.
late_creation_survives_example :
    ((finish_create config
        (shutdown waiting_manager)
        (codes "s2")
        request
        true
        0
        nonce).0.shutting_down
      ≡ true)
    × ((finish_create config
          (shutdown waiting_manager)
          (codes "s2")
          request
          true
          0
          nonce).0.sessions
        ≡ (codes "s2", (made_session config (codes "s2") request 0 nonce).0) ∷ [])
late_creation_survives_example =
    late_creation_survives config waiting_manager (codes "s2") request 0 nonce
      waiting_manager-IsClosable

abbrev issued : IssuedTicket
issued = issue codec id (codes "v") (codes "/ws") 30000 0 nonce

abbrev holder : Expected
holder = record { session_id = id; visitor_id = codes "v"; path = codes "/ws" }

verify-IsBound_example : IsBound codec issued.ticket holder 10 issued.payload
verify-IsBound_example = verify-IsBound codec issued.ticket holder 10 issued.payload (
    verify-issue codec codec-IsFaithful id (codes "v") (codes "/ws") 30000 0 nonce 10 (omega arith))

verify-issue_example : verify codec issued.ticket holder 30000 ≡ expired
verify-issue_example =
    verify-issue codec codec-IsFaithful id (codes "v") (codes "/ws") 30000 0 nonce 30000
      (omega arith)
