-- ===== src/Guard/State.antt =====
-- The verdicts, the options and the fields of LspJsonRpcGuard in
-- apps/lsp/src/json-rpc-guard.ts.
use smart_c_playground.Prelude.{ℕ, ◌*◌, Bool, false, Option, none, List, [], String, get_or}
use smart_c_playground.Text.{Text}
use smart_c_playground.Json.{Json}
use smart_c_playground.Map.{Map}

-- JsonRpcGuardResult
pub data Verdict : Type 0 where
  accepted : Verdict
  rejected : (close_code : ℕ) → (reason : String) → Verdict

abbrev pub policy_violation : String → Verdict
policy_violation = rejected 1008

abbrev pub size_violation : String → Verdict
size_violation = rejected 1009

abbrev pub overload_violation : String → Verdict
overload_violation = rejected 1013

-- What the guard takes from Node: JSON.parse, `none` where it throws, and fileURLToPath.
pub record Platform : Type 0 where
  pub parse_json : Text → Option Json
  pub file_url_to_path : Text → Text

pub record Options : Type 0 where
  pub document_uris : List Text
  pub workspace_uri : Text
  pub max_document_bytes : Option ℕ
  pub client_rate_window_ms : Option ℕ
  pub client_max_messages_per_window : Option ℕ
  pub client_max_session_bytes : Option ℕ
  pub server_max_message_bytes : Option ℕ
  pub server_max_buffered_bytes : Option ℕ
  pub server_max_session_bytes : Option ℕ

-- The fields that the constructor sets once.
pub record Config : Type 0 where
  pub platform : Platform
  pub open platform use *
  pub document_uris : List Text
  pub workspace_uri : Text
  pub max_document_bytes : ℕ
  pub client_rate_window_ms : ℕ
  pub client_max_messages_per_window : ℕ
  pub client_max_session_bytes : ℕ
  pub server_max_message_bytes : ℕ
  pub server_max_buffered_bytes : ℕ
  pub server_max_session_bytes : ℕ

unfoldable pub configure : Platform → Options → Config
configure platform o = record {
  platform = platform;
  document_uris = o.document_uris;
  workspace_uri = o.workspace_uri;
  max_document_bytes = get_or o.max_document_bytes (64 * 1024);
  client_rate_window_ms = get_or o.client_rate_window_ms 10000;
  client_max_messages_per_window = get_or o.client_max_messages_per_window 300;
  client_max_session_bytes = get_or o.client_max_session_bytes (32 * 1024 * 1024);
  server_max_message_bytes = get_or o.server_max_message_bytes (1024 * 1024);
  server_max_buffered_bytes = get_or o.server_max_buffered_bytes (1024 * 1024);
  server_max_session_bytes = get_or o.server_max_session_bytes (64 * 1024 * 1024);
}

-- TrackedDocument
pub record Document : Type 0 where
  pub text : Text
  pub version : ℕ
  pub bytes : ℕ

-- LspDocumentUpdate
pub record Update : Type 0 where
  pub uri : Text
  pub text : Text
  pub notify_dependents : Bool

-- The fields that change.
pub record Guard : Type 0 where
  pub client_window_started_at : ℕ
  pub client_messages_in_window : ℕ
  pub client_session_bytes : ℕ
  pub server_session_bytes : ℕ
  pub initialize_seen : Bool
  pub initialized_seen : Bool
  pub shutdown_seen : Bool
  pub documents : Map Document
  pub document_bytes : ℕ
  pub pending_document_update : Option Update

unfoldable pub init : ℕ → Guard
init now = record {
  client_window_started_at = now;
  client_messages_in_window = 0;
  client_session_bytes = 0;
  server_session_bytes = 0;
  initialize_seen = false;
  initialized_seen = false;
  shutdown_seen = false;
  documents = [];
  document_bytes = 0;
  pending_document_update = none;
}
