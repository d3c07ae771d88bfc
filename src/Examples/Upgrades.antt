-- ===== src/Examples/Upgrades.antt =====
-- A new session of the language server, and the browser that connects to it.
use smart_c_playground.Prelude.{◌≡◌, refl, true, false, none, some, Option, [], ◌∷◌, arith, drop}
use smart_c_playground.Text.{Text, codes, text_eq, includes, trim, trim_start, trim_end}
use smart_c_playground.Json.{str, obj, end, field}
use smart_c_playground.Map.{get, set, Distinct}
use smart_c_playground.Ticket.{issue}
use smart_c_playground.Ticket.RoundTrip.{IsFaithful}
use smart_c_playground.Manager.State.{Manager, init, configure}
use smart_c_playground.Manager.Quota.{release}
use smart_c_playground.Manager.Sessions.{made_session, finish_create, web_socket_path_of}
use smart_c_playground.Manager.Sessions.Issued.{creating_manager}
use smart_c_playground.Upgrade.{
  Request, Upgrades, accepted, is_session_path, literals, matches, is_of, session_id_pattern,
  parse_path, verify_client,
}
use smart_c_playground.Upgrade.Verified.{path, IsVerified, verify_client-IsVerified}
use smart_c_playground.Upgrade.Settled.{Settles, verify_client-Settles}
use smart_c_playground.Upgrade.Spent.{Call, closes, breaks, call, calls, authorization_used_once}
use smart_c_playground.Upgrade.Created.{browsers_request, created_ticket_is_accepted}
use smart_c_playground.App.{Post, post_sessions}
use smart_c_playground.App.Creations.{IsHandled, post_sessions-IsHandled}
use smart_c_playground.Examples.Codec.{
  codec, codec-IsFaithful, put, put_fields, put_items, put_text,
}
use smart_c_playground.Examples.Sessions.{config, request}

abbrev uuid : Text
uuid = codes "11111111-1111-4111-8111-111111111111"

abbrev origin : Text
origin = codes "https://example.test"

abbrev pathname_of : Text → Option Text
pathname_of url = some url

codec-IsFaithful_of_config : IsFaithful config.ticket_service
unfolding configure
codec-IsFaithful_of_config = codec-IsFaithful

abbrev manager : Manager
manager = creating_manager config codec-IsFaithful_of_config init uuid request 0 (codes "n")

abbrev upgrades : Upgrades
upgrades = record { manager = manager; pending_authorizations = [] }

-- The browser sends the ticket and the cookie of the visitor.
abbrev browser : Request
browser =
    browsers_request pathname_of config origin codec-IsFaithful_of_config init uuid request 0
      (codes "n") (codes "r") (some (web_socket_path_of config uuid))
      ((codes "smart_c_visitor", codes "v") ∷ []) (some (codes " theme=dark"))

path-IsSessionPath : is_session_path (web_socket_path_of config uuid) ≡ true
unfolding is_session_path web_socket_path_of codes matches is_of literals session_id_pattern
path-IsSessionPath = refl

created_ticket_is_accepted_example :
    (verify_client pathname_of config origin upgrades browser 10).1 ≡ accepted
unfolding configure parse_path made_session issue codec put put_fields put_items put_text codes
    includes trim trim_start trim_end text_eq
created_ticket_is_accepted_example =
    created_ticket_is_accepted pathname_of config origin codec-IsFaithful_of_config init uuid
      request 0 (codes "n") [] (codes "r") (some (web_socket_path_of config uuid))
      ((codes "smart_c_visitor", codes "v") ∷ []) (some (codes " theme=dark")) 10
      ((refl, refl, refl, refl), tt) refl path-IsSessionPath refl refl (omega arith) (omega arith)

verify_client-IsVerified_example :
    IsVerified pathname_of config origin upgrades browser 10
      (verify_client pathname_of config origin upgrades browser 10)
verify_client-IsVerified_example =
    verify_client-IsVerified pathname_of config origin upgrades browser 10

manager-distinct : Distinct manager.sessions
unfolding finish_create release init get set
manager-distinct = (refl, tt)

no_cleanup :
    get manager.cleanup_promises (drop 8 (path pathname_of config origin upgrades browser 10))
    ≡ none
unfolding finish_create release init get set
no_cleanup = refl

verify_client-Settles_example :
    Settles pathname_of config origin upgrades browser 10 5 6 11 tt manager-distinct no_cleanup
      (verify_client pathname_of config origin upgrades browser 10).0
verify_client-Settles_example =
    verify_client-Settles pathname_of config origin upgrades browser 10 5 6 11 tt manager-distinct
      no_cleanup created_ticket_is_accepted_example

abbrev noted : Upgrades
noted = record { manager = manager; pending_authorizations = (codes "r", uuid) ∷ [] }

-- The upgrade attaches the session; then another request is broken, and the first one's socket closes.
authorization_used_once_example :
    call pathname_of config origin
      (calls pathname_of config origin
        (call pathname_of config origin noted (Call.upgrades browser 5 6 true 11))
        (breaks browser 12 ∷ []))
      (closes browser)
    ≡ calls pathname_of config origin
        (call pathname_of config origin noted (Call.upgrades browser 5 6 true 11))
        (breaks browser 12 ∷ [])
unfolding get
authorization_used_once_example =
    authorization_used_once pathname_of config origin browser noted
      (Call.upgrades browser 5 6 true 11) (breaks browser 12 ∷ []) (closes browser) (refl, tt) refl
      (tt, tt) refl

abbrev post : Post
post = record {
  too_large = false;
  internal_token = some (codes "token");
  content_type = some (codes "application/json; charset=utf-8");
  body = some (obj (field (codes "visitorId") (str (codes "v")) end));
}

post_sessions-IsHandled_example :
    IsHandled config
      (codes "token")
      true
      manager
      manager
      post
      (post_sessions config (codes "token") true manager manager post)
post_sessions-IsHandled_example =
    post_sessions-IsHandled config (codes "token") true manager manager post
