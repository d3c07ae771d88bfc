-- ===== src/Examples/Messages.antt =====
-- The guard at the messages of a session that opens its document and edits it.
use smart_c_playground.Prelude.{◌+◌, ◌≤◌, arith, ◌≡◌, refl, false, List, [], ◌∷◌}
use smart_c_playground.Text.{Text, codes, text_eq, has, byte_length}
use smart_c_playground.Json.{obj, prop}
use smart_c_playground.Map.{get, set, total}
use smart_c_playground.Guard.State.{accepted, rejected, configure, init}
use smart_c_playground.Guard.Methods.{
  is_json_rpc_response, is_version_two, client_methods, is_valid_initialize_params,
}
use smart_c_playground.Guard.Uris.{has_unexpected_uri}
use smart_c_playground.Guard.Session.{
  validate_content, validate_client_message, validate_server_message,
}
use smart_c_playground.Guard.Uris.Clean.{IsClean}
use smart_c_playground.Guard.Uris.Sound.{has_unexpected_uri-IsClean}
use smart_c_playground.Guard.Uris.Complete.{nodes, height, IsClean-has_unexpected_uri}
use smart_c_playground.Guard.Session.Steps.{MessageStep, validate_content-step}
use smart_c_playground.Guard.Session.Invariant.{
  IsValid, init-IsValid, validate_client_message-IsValid,
}
use smart_c_playground.Guard.Session.Screened.{IsScreened, accepted-IsScreened}
use smart_c_playground.Guard.Session.Updates.{FollowsUpdate, documents-FollowsUpdate}
use smart_c_playground.Guard.Session.Effects.{IsUntouched, rejected-IsUntouched}
use smart_c_playground.Guard.Session.Budget.{Timed, count_accepted, count_accepted_in_window}
use smart_c_playground.Examples.Data.{
  initialize_fields, main_uri, workspace_uri, config, initialized_guard, opened_guard,
  opened_guard-IsValid,
}

abbrev uris : List Text
uris = main_uri ∷ []

-- The session is opened, and its document edited.
abbrev arrivals : List Timed
arrivals = (1, codes "a") ∷ (2, codes "b") ∷ (3, codes "c") ∷ (4, codes "d") ∷ []

response_is_accepted : (validate_client_message config (init 0) 4 (codes "e")).1 ≡ accepted
unfolding validate_client_message configure init codes text_eq has byte_length prop get set total
    is_json_rpc_response has_unexpected_uri is_version_two client_methods is_valid_initialize_params
response_is_accepted = refl

server_response_is_accepted : (validate_server_message config (init 0) (codes "e") 0).1 ≡ accepted
unfolding validate_server_message configure init codes text_eq has byte_length prop get set total
    is_json_rpc_response has_unexpected_uri is_version_two client_methods is_valid_initialize_params
server_response_is_accepted = refl

unknown_is_rejected :
    (validate_client_message config initialized_guard 4 (codes "z")).1
    ≡ rejected 1008 "Invalid JSON-RPC message"
unfolding validate_client_message configure init codes text_eq has byte_length prop get set total
    is_json_rpc_response has_unexpected_uri is_version_two client_methods is_valid_initialize_params
unknown_is_rejected = refl

validate_client_message-IsValid_example :
    IsValid config (validate_client_message config opened_guard 4 (codes "d")).0
validate_client_message-IsValid_example =
    validate_client_message-IsValid config opened_guard 4 (codes "d") opened_guard-IsValid

accepted-IsScreened_example : IsScreened config (codes "e")
accepted-IsScreened_example = accepted-IsScreened config (init 0) 4 (codes "e") response_is_accepted

documents-FollowsUpdate_example :
    FollowsUpdate opened_guard.documents
      (validate_client_message config opened_guard 4 (codes "d"))
      main_uri
documents-FollowsUpdate_example =
    documents-FollowsUpdate config opened_guard 4 (codes "d") main_uri opened_guard-IsValid

rejected-IsUntouched_example :
    IsUntouched initialized_guard (validate_client_message config initialized_guard 4 (codes "z")).0
rejected-IsUntouched_example =
    rejected-IsUntouched config initialized_guard 4 (codes "z") 1008 "Invalid JSON-RPC message"
      unknown_is_rejected

count_accepted_in_window_example :
    (init 0).client_messages_in_window + count_accepted config (init 0) arrivals
    ≤ config.client_max_messages_per_window
unfolding init configure
count_accepted_in_window_example =
    count_accepted_in_window config (init 0) arrivals (init-IsValid config 0)
      (omega arith, (omega arith, (omega arith, (omega arith, tt))))

validate_content-step_example :
    MessageStep config opened_guard (validate_content config opened_guard (codes "d"))
validate_content-step_example = validate_content-step config opened_guard (codes "d")

initialize-IsClean : IsClean uris workspace_uri (obj initialize_fields)
unfolding has_unexpected_uri codes text_eq has
initialize-IsClean = has_unexpected_uri-IsClean uris workspace_uri initialize_fields refl

IsClean-has_unexpected_uri_example : has_unexpected_uri uris workspace_uri initialize_fields ≡ false
unfolding nodes height codes has text_eq
IsClean-has_unexpected_uri_example =
    IsClean-has_unexpected_uri uris workspace_uri initialize_fields initialize-IsClean (omega arith)
      (omega arith)
