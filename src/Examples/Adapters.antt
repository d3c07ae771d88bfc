-- ===== src/Examples/Adapters.antt =====
-- The adapter at a response of the browser and at binary frames.
use smart_c_playground.Prelude.{flag, ◌+◌, ◌≡◌, ◌++◌, refl, Bool, true, false, List, [], ◌∷◌}
use smart_c_playground.Text.{codes, text_eq, has, byte_length}
use smart_c_playground.Json.{prop}
use smart_c_playground.Guard.State.{configure, init}
use smart_c_playground.Guard.Methods.{is_json_rpc_response, is_version_two}
use smart_c_playground.Guard.Uris.{has_unexpected_uri}
use smart_c_playground.Guard.Session.{validate_client_message, take_document_update}
use smart_c_playground.Adapter.{
  Adapter, Wiring, connect, Action, arrives, begins, act, run, schedule_header_rebuild,
}
use smart_c_playground.Adapter.Violation.{reports, run-reports}
use smart_c_playground.Adapter.Order.{
  contents_of, delivered_of, accepted_by, open_actions, run-in_order,
}
use smart_c_playground.Examples.Data.{main_uri, config}

abbrev wiring : Wiring
wiring = record { limits = config; header_uris = []; translation_unit_uris = main_uri ∷ [] }

abbrev adapter : Adapter
adapter = connect (init 0)

-- Two binary frames, which are refused once.
abbrev frames : List (Bool × Action wiring)
frames = (true, arrives 1 true []) ∷ (true, arrives 2 true []) ∷ []

-- A response that clangd is given.
abbrev responses : List (Action wiring)
responses = arrives 1 false (codes "e") ∷ begins ∷ []

run-reports_example :
    reports (run wiring adapter frames).1 + flag adapter.violated
    ≡ flag (run wiring adapter frames).0.violated
run-reports_example = run-reports wiring adapter frames

run-in_order_example :
    delivered_of (run wiring adapter (open_actions wiring responses)).1
      ++ contents_of (run wiring adapter (open_actions wiring responses)).0.message_queue
    ≡ contents_of adapter.message_queue ++ accepted_by wiring adapter responses
unfolding run act connect validate_client_message configure init codes text_eq has byte_length prop
    is_json_rpc_response has_unexpected_uri is_version_two take_document_update
    schedule_header_rebuild
run-in_order_example = run-in_order wiring adapter responses refl
