-- ===== src/Guard/Session.antt =====
-- LspJsonRpcGuard of apps/lsp/src/json-rpc-guard.ts: the messages of one session, both ways.
-- The clock is an argument of each call, in milliseconds.
pub mod Steps
pub mod Invariant
pub mod Budget
pub mod Effects
pub mod Updates
pub mod Screened
use smart_c_playground.Prelude.{
  ℕ, ◌+◌, Bool, true, false, not, ◌&&◌, ◌||◌, Option, none, some, List, [], ◌∷◌, ltb, leb,
  if◌then◌else◌, ◌>>=◌, map,
}
use smart_c_playground.Text.{Text, codes, text_eq, has, byte_length}
use smart_c_playground.Json.{Json, Fields, as_object, as_string, prop}
use smart_c_playground.Guard.Uris.{has_unexpected_uri}
use smart_c_playground.Guard.State.{
  Verdict, accepted, rejected, policy_violation, size_violation, overload_violation, Config,
  Document, Update, Guard,
}
use smart_c_playground.Guard.Methods.{
  client_methods, document_methods, is_valid_initialize_params, is_safe_configuration_change,
  has_allowed_text_document, is_json_rpc_response, is_version_two,
}
use smart_c_playground.Guard.Documents.{
  refuse, validate_did_open, validate_did_change, validate_did_close, validate_did_save,
}

-- The rest of a check that stops at the first violation.
abbrev and_then : Guard × Verdict → (Guard → Guard × Verdict) → Guard × Verdict
and_then (g, accepted) k = k g
and_then (g, rejected code reason) k = (g, rejected code reason)

module _ (o : Config) where
  abbrev parse_json_object : Text → Option Fields
  parse_json_object content = as_object (o.parse_json content)

  -- The start of a new window, when the old one is over.
  roll_window : Guard → ℕ → Guard
  roll_window g now =
      if leb (g.client_window_started_at + o.client_rate_window_ms) now
      then record g { client_window_started_at = now; client_messages_in_window = 0 }
      else g

  charge : Guard → ℕ → Guard × Verdict
  charge g content_bytes =
      if leb o.client_max_messages_per_window g.client_messages_in_window
      then (g, overload_violation "LSP message rate exceeded")
      else if ltb o.client_max_session_bytes (g.client_session_bytes + content_bytes)
      then (g, size_violation "LSP request budget exceeded")
      else (
        record g {
          client_messages_in_window = g.client_messages_in_window + 1;
          client_session_bytes = g.client_session_bytes + content_bytes;
        },
        accepted,
      )

  -- #consumeClientBudget
  pub consume_client_budget : Guard → ℕ → ℕ → Guard × Verdict
  unfolding roll_window charge
  consume_client_budget g now content_bytes = charge (roll_window g now) content_bytes

  validate_initialize : Guard → Option Json → Guard × Verdict
  validate_initialize g params =
      if g.initialize_seen
        || not
            (is_valid_initialize_params params o.workspace_uri (o.file_url_to_path o.workspace_uri))
      then refuse g "Invalid initialize request"
      else (record g { initialize_seen = true }, accepted)

  validate_initialized : Guard → Guard × Verdict
  validate_initialized g =
      if not g.initialize_seen || g.initialized_seen
      then refuse g "Invalid initialized notification"
      else (record g { initialized_seen = true }, accepted)

  validate_shutdown : Guard → Guard × Verdict
  validate_shutdown g =
      if not g.initialized_seen || g.shutdown_seen
      then refuse g "Invalid shutdown request"
      else (record g { shutdown_seen = true }, accepted)

  validate_exit : Guard → Guard × Verdict
  validate_exit g = if g.shutdown_seen then (g, accepted) else refuse g "Exit before shutdown"

  -- The switch over the methods of an active session.
  validate_active_method : Guard → Text → Option Json → Guard × Verdict
  validate_active_method g method params =
      if text_eq method (codes "textDocument/didOpen")
      then validate_did_open o g params
      else if text_eq method (codes "textDocument/didChange")
      then validate_did_change o g params
      else if text_eq method (codes "textDocument/didClose")
      then validate_did_close o g params
      else if text_eq method (codes "textDocument/didSave")
      then validate_did_save o g params
      else if text_eq method (codes "workspace/didChangeConfiguration")
      then (if is_safe_configuration_change params
          then (g, accepted)
          else refuse g "Workspace configuration is not allowed")
      else if has document_methods method && not (has_allowed_text_document params o.document_uris)
      then refuse g "Unexpected text document"
      else (g, accepted)

  -- #validateClientMethod
  validate_client_method : Guard → Text → Option Json → Guard × Verdict
  unfolding validate_initialize validate_initialized validate_shutdown validate_exit
      validate_active_method
  validate_client_method g method params =
      if text_eq method (codes "$/cancelRequest") || text_eq method (codes "$/setTrace")
      then (g, accepted)
      else if text_eq method (codes "initialize")
      then validate_initialize g params
      else if text_eq method (codes "initialized")
      then validate_initialized g
      else if text_eq method (codes "shutdown")
      then validate_shutdown g
      else if text_eq method (codes "exit")
      then validate_exit g
      else if not g.initialized_seen || g.shutdown_seen
      then refuse g "LSP session is not active"
      else validate_active_method g method params

  -- What follows the checks of the whole message.
  route : Guard → Fields → Guard × Verdict
  unfolding validate_client_method
  route g message = elim (prop message "method") [
    | none ↦
        if is_json_rpc_response message then (g, accepted) else refuse g "Invalid JSON-RPC response"
    | some raw ↦ elim (as_string (some raw)) [
      | none ↦ refuse g "LSP method is not allowed"
      | some method ↦
          if has client_methods method
          then validate_client_method g method (prop message "params")
          else refuse g "LSP method is not allowed"
    ]
  ]

  pub validate_content : Guard → Text → Guard × Verdict
  unfolding route
  validate_content g content = elim (parse_json_object content) [
    | none ↦ refuse g "Invalid JSON-RPC message"
    | some message ↦
        if not (is_version_two message)
        then refuse g "Invalid JSON-RPC message"
        else if has_unexpected_uri o.document_uris o.workspace_uri message
        then refuse g "Unexpected document URI"
        else route g message
  ]

  unfoldable pub validate_client_message : Guard → ℕ → Text → Guard × Verdict
  unfolding consume_client_budget validate_content
  validate_client_message g now content =
      and_then
        (consume_client_budget (record g { pending_document_update = none }) now
          (byte_length content))
        (λ charged. validate_content charged content)

  unfoldable pub validate_server_message : Guard → Text → ℕ → Guard × Verdict
  validate_server_message g content buffered_amount =
      let content_bytes = byte_length content in
      if ltb o.server_max_message_bytes content_bytes
      then (g, size_violation "LSP response is too large")
      else if ltb o.server_max_buffered_bytes (buffered_amount + content_bytes)
      then (g, overload_violation "LSP response buffer is full")
      else if ltb o.server_max_session_bytes (g.server_session_bytes + content_bytes)
      then (g, size_violation "LSP response budget exceeded")
      else elim (parse_json_object content) [
        | none ↦ refuse g "Invalid server JSON-RPC message"
        | some message ↦
            if not (is_version_two message)
            then refuse g "Invalid server JSON-RPC message"
            else if has_unexpected_uri o.document_uris o.workspace_uri message
            then refuse g "Unexpected server document URI"
            else (
              record g { server_session_bytes = g.server_session_bytes + content_bytes },
              accepted,
            )
      ]

unfoldable pub take_document_update : Guard → Guard × Option Update
take_document_update g = (record g { pending_document_update = none }, g.pending_document_update)

-- The versions of the open documents, in the order of opening.
pub open_document_versions : Guard → List (Text × ℕ)
open_document_versions g = map (λ e. (e.0, e.1.version)) g.documents
