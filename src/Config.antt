-- ===== src/Config.antt =====
-- apps/lsp/src/config.ts: the settings of the LSP service from its environment variables.
pub mod Loaded
use smart_c_playground.Prelude.{
  ℕ, ◌+◌, ◌≡◌, Bool, true, false, not, ◌&&◌, ◌||◌, Option, none, some, List, [], ◌∷◌, String, ltb,
  leb, ◌==◌, if◌then◌else◌, is_some,
}
use smart_c_playground.Text.{Text, codes, text_eq, includes, starts_with, byte_length}
use smart_c_playground.Json.{Number, pos, negsuc, fraction, max_safe_integer}
use smart_c_playground.Web.{or_else, or_option, is_text}

-- The errors that loadConfig throws, with the variable's name where the message has it.
pub data ConfigError : Type 0 where
  not_absolute : (name : String) → ConfigError
  no_sandbox : ConfigError
  bad_port : ConfigError
  bad_origin : ConfigError
  short_secret : (name : String) → ConfigError
  bad_integer : (name : String) → ConfigError

pub data Result {ℓ} (A : Type ℓ) : Type ℓ where
  ok : A → Result A
  thrown : ConfigError → Result A

infixl 5 ◌>>=◌
abbrev pub ◌>>=◌ {ℓ κ} : {A : Type ℓ} {B : Type κ} → Result A → (A → Result B) → Result B
ok a >>= next = next a
thrown e >>= next = thrown e

-- The environment variables, each `none` where it is not set.
pub record Environment : Type 0 where
  pub node_env : Option Text
  pub lsp_host : Option Text
  pub host : Option Text
  pub lsp_port : Option Text
  pub port : Option Text
  pub web_origin : Option Text
  pub internal_service_token : Option Text
  pub session_signing_secret : Option Text
  pub lsp_workspace_root : Option Text
  pub clangd_path : Option Text
  pub clangd_sandbox_path : Option Text
  pub clangd_limiter_path : Option Text
  pub lsp_max_sessions : Option Text
  pub lsp_max_sessions_per_visitor : Option Text
  pub lsp_max_sessions_per_ip : Option Text

-- LspConfig
pub record LspConfig : Type 0 where
  pub host : Text
  pub port : ℕ
  pub web_origin : Text
  pub internal_token : Text
  pub signing_secret : Text
  pub workspace_root : Text
  pub clangd_path : Text
  pub clangd_sandbox_path : Option Text
  pub clangd_limiter_path : Option Text
  pub max_sessions : ℕ
  pub max_sessions_per_visitor : ℕ
  pub max_sessions_per_ip : ℕ

-- isAbsolute of node:path; Number(text), where NaN and the infinities are no integers, as a fraction is; and the protocol and the
-- origin of new URL(text), where `none` is a throw.
pub record Platform : Type 0 where
  pub is_absolute : Text → Bool
  pub number_of : Text → Number
  pub url_of : Text → Option (Text × Text)

abbrev pub integer_within : (low high : ℕ) → ConfigError → Number → Result ℕ
integer_within low high e (pos n) = if ltb n low || ltb high n then thrown e else ok n
integer_within low high e (negsuc n) = thrown e
integer_within low high e fraction = thrown e

-- readSecret
unfoldable pub read_secret : Option Text → (name : String) → Result Text
read_secret none name = thrown (short_secret name)
read_secret (some secret) name =
    if ltb (byte_length secret) 32 then thrown (short_secret name) else ok secret

module _ (p : Platform) where
  -- readOptionalAbsolutePath
  unfoldable pub read_optional_absolute_path : Option Text → (name : String) → Result (Option Text)
  read_optional_absolute_path none name = ok none
  read_optional_absolute_path (some raw_path) name =
      if text_eq raw_path []
        || not (p.is_absolute raw_path)
        || (includes raw_path 0 || includes raw_path 13 || includes raw_path 10)
      then thrown (not_absolute name)
      else ok (some raw_path)

  pub origin_found : (origin : Text) → Option (Text × Text) → Result Text
  origin_found origin none = thrown bad_origin
  origin_found origin (some (protocol, url_origin)) =
      if (not (text_eq protocol (codes "http:")) && not (text_eq protocol (codes "https:")))
        || not (text_eq url_origin origin)
      then thrown bad_origin
      else ok url_origin

  -- parseWebOrigin
  unfoldable pub parse_web_origin : Option Text → Result Text
  unfolding origin_found
  parse_web_origin raw_origin =
      let origin = or_else raw_origin (codes "http://localhost:8080") in
      origin_found origin (p.url_of origin)

  -- parsePort
  unfoldable pub parse_port : Option Text → Result ℕ
  parse_port none = ok 3001
  parse_port (some raw_port) = integer_within 1 65535 bad_port (p.number_of raw_port)

  -- parsePositiveInteger
  unfoldable pub parse_positive_integer :
      Option Text → (name : String) → (default_value : ℕ) → Result ℕ
  parse_positive_integer none name default_value = ok default_value
  parse_positive_integer (some raw_value) name default_value =
      integer_within 1 max_safe_integer (bad_integer name) (p.number_of raw_value)

  unfoldable pub check_sandbox : Option Text → (sandbox limiter : Option Text) → Result (Unit {0})
  check_sandbox node_env sandbox limiter =
      if is_text node_env (codes "production") && (not (is_some sandbox) || not (is_some limiter))
      then thrown no_sandbox
      else ok tt

  -- loadConfig
  unfoldable pub load_config : Environment → Result LspConfig
  unfolding read_optional_absolute_path read_secret parse_web_origin parse_port
      parse_positive_integer check_sandbox
  load_config e = do
    sandbox ← read_optional_absolute_path e.clangd_sandbox_path "CLANGD_SANDBOX_PATH"
    limiter ← read_optional_absolute_path e.clangd_limiter_path "CLANGD_LIMITER_PATH"
    checked ← check_sandbox e.node_env sandbox limiter
    port ← parse_port (or_option e.lsp_port e.port)
    web_origin ← parse_web_origin e.web_origin
    internal_token ← read_secret e.internal_service_token "INTERNAL_SERVICE_TOKEN"
    signing_secret ← read_secret e.session_signing_secret "SESSION_SIGNING_SECRET"
    max_sessions ← parse_positive_integer e.lsp_max_sessions "LSP_MAX_SESSIONS" 8
    per_visitor ←
        parse_positive_integer e.lsp_max_sessions_per_visitor "LSP_MAX_SESSIONS_PER_VISITOR" 1
    per_ip ← parse_positive_integer e.lsp_max_sessions_per_ip "LSP_MAX_SESSIONS_PER_IP" 2
    ok (record {
      host = or_else (or_option e.lsp_host e.host) (codes "0.0.0.0");
      port = port;
      web_origin = web_origin;
      internal_token = internal_token;
      signing_secret = signing_secret;
      workspace_root = or_else e.lsp_workspace_root (codes "/tmp/smart-c-lsp");
      clangd_path = or_else e.clangd_path (codes "clangd");
      clangd_sandbox_path = sandbox;
      clangd_limiter_path = limiter;
      max_sessions = max_sessions;
      max_sessions_per_visitor = per_visitor;
      max_sessions_per_ip = per_ip;
    })
