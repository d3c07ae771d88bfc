-- ===== src/Manager/State.antt =====
-- The fields of LspSessionManager in apps/lsp/src/session-manager.ts, and the URIs of
-- apps/lsp/src/clangd-process.ts that a session keeps.
use smart_c_playground.Prelude.{
  ℕ, ◌*◌, Bool, false, Option, List, [], String, get_or, if◌then◌else◌,
}
use smart_c_playground.Text.{Text, codes}
use smart_c_playground.Map.{Map}
use smart_c_playground.Contracts.{SourceFile}
use smart_c_playground.Ticket.{Codec}

-- SessionLimitKind
pub data LimitKind : Type 0 where
  global visitor ip shutting_down : LimitKind

-- The result of an operation that may throw a SessionLimitError.
pub data Result {ℓ} (A : Type ℓ) : Type ℓ where
  ok : A → Result A
  limit_error : LimitKind → Result A

-- WebSocketAuthorization
pub data Authorization : Type 0 where
  authorized_as : Text → Authorization
  unauthorized : (status : ℕ) → (code : String) → Authorization

pub data SessionState : Type 0 where
  waiting authorized connected disposing : SessionState

-- InternalCreateLspSessionRequest
pub record Request : Type 0 where
  pub files : List SourceFile
  pub visitor_id : Text
  pub client_ip : Text

pub record Reservation : Type 0 where
  pub visitor_id : Text
  pub client_ip : Text

-- ManagedSession. A timer is the time at which it fires, or cleared; a socket and a process are known
-- by a number.
pub record Session : Type 0 where
  pub id : Text
  pub visitor_id : Text
  pub client_ip : Text
  pub workspace_path : Text
  pub document_uris : Map Text
  pub workspace_uri : Text
  pub web_socket_path : Text
  pub ticket_nonce : Text
  pub state : SessionState
  pub idle_timer : Option ℕ
  pub absolute_timer : Option ℕ
  pub ticket_timer : Option ℕ
  pub web_socket : Option ℕ
  pub clangd : Option ℕ

-- What a cleanup in progress takes down, and how it closes the socket. `none`: there was no session.
pub record Cleanup : Type 0 where
  pub session : Option Session
  pub close_code : ℕ
  pub close_reason : String

-- The functions of node:path and node:url that the program calls.
pub record Paths : Type 0 where
  pub join : Text → Text → Text
  pub resolve : Text → Text
  pub path_to_file_url : Text → Text

pub record Options : Type 0 where
  pub workspace_root : Text
  pub clangd_sandbox_path : Option Text
  pub max_sessions : Option ℕ
  pub max_sessions_per_visitor : Option ℕ
  pub max_sessions_per_ip : Option ℕ
  pub idle_ttl_ms : Option ℕ
  pub absolute_ttl_ms : Option ℕ
  pub ticket_ttl_ms : Option ℕ

pub record Config : Type 0 where
  pub paths : Paths
  pub open paths use *
  pub ticket_service : Codec
  pub workspace_root : Text
  pub clangd_sandbox_path : Option Text
  pub max_sessions : ℕ
  pub max_sessions_per_visitor : ℕ
  pub max_sessions_per_ip : ℕ
  pub idle_ttl_ms : ℕ
  pub absolute_ttl_ms : ℕ
  pub ticket_ttl_ms : ℕ

unfoldable pub configure : Paths → Codec → Options → Config
configure paths ticket_service o = record {
  paths = paths;
  ticket_service = ticket_service;
  workspace_root = o.workspace_root;
  clangd_sandbox_path = o.clangd_sandbox_path;
  max_sessions = get_or o.max_sessions 8;
  max_sessions_per_visitor = get_or o.max_sessions_per_visitor 1;
  max_sessions_per_ip = get_or o.max_sessions_per_ip 2;
  idle_ttl_ms = get_or o.idle_ttl_ms (10 * 60 * 1000);
  absolute_ttl_ms = get_or o.absolute_ttl_ms (30 * 60 * 1000);
  ticket_ttl_ms = get_or o.ticket_ttl_ms 30000;
}

pub record Manager : Type 0 where
  pub sessions : Map Session
  pub cleanup_promises : Map Cleanup
  pub pending_visitors : Map ℕ
  pub pending_ips : Map ℕ
  pub pending_count : ℕ
  pub shutting_down : Bool

unfoldable pub init : Manager
init = record {
  sessions = [];
  cleanup_promises = [];
  pending_visitors = [];
  pending_ips = [];
  pending_count = 0;
  shutting_down = false;
}

module _ (paths : Paths) where
  open paths use {join, resolve, path_to_file_url}

  -- createClangdDocumentUri
  pub create_clangd_document_uri : Text → Bool → Text → Text
  create_clangd_document_uri workspace_path sandbox_enabled file_name =
      path_to_file_url
        (join (if sandbox_enabled then codes "/workspace" else resolve workspace_path) file_name)

  -- createClangdWorkspaceUri
  pub create_clangd_workspace_uri : Text → Bool → Text
  create_clangd_workspace_uri workspace_path sandbox_enabled =
      path_to_file_url (if sandbox_enabled then codes "/workspace" else resolve workspace_path)
