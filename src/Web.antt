-- ===== src/Web.antt =====
-- The server side of apps/web: its requests, its responses, and what it takes from its surroundings.
pub mod Identity
pub mod Http
pub mod Services
pub mod Routes
use smart_c_playground.Prelude.{
  ℕ, ◌≡◌, Bool, true, false, Option, none, some, List, [], ◌∷◌, String, if◌then◌else◌,
}
use smart_c_playground.Text.{Text, codes, text_eq}
use smart_c_playground.Json.{Json}

-- The body of a request as its reader gives it: chunks of bytes, until the end or a failure.
pub data Stream : Type 0 where
  done : Stream
  failed : Stream
  chunk : (bytes : List ℕ) → Stream → Stream

-- What the handlers read of a request. A header that is missing is `none`. The server lets only digits
-- pass as a Content-Length. `cancel_fails` says that reader.cancel would reject.
pub record Request : Type 0 where
  pub content_type : Option Text
  pub content_length : Option ℕ
  pub origin : Option Text
  pub forwarded_for : Option Text
  pub visitor_cookie : Option Text
  pub body : Option Stream
  pub cancel_fails : Bool

pub record Cookie : Type 0 where
  pub name : Text
  pub value : Text
  pub max_age : ℕ
  pub path : Text
  pub http_only : Bool
  pub same_site : Text
  pub secure : Bool

-- The body of a response: a problem, what an internal service has answered, or JSON of the route's own.
pub data Body : Type 0 where
  problem : (title : String) → (detail : Option String) → (retry_after_seconds : Option ℕ) → Body
  passed_on : (text : Text) → (content_type : Text) → Body
  json : Json → Body

pub record Response : Type 0 where
  pub status : ℕ
  pub body : Body
  pub retry_after : Option Text
  pub cookies : List Cookie

-- The environment variables, each `none` where it is not set.
pub record Env : Type 0 where
  pub node_env : Option Text
  pub cookie_secure : Option Text
  pub visitor_cookie_secret : Option Text
  pub session_signing_secret : Option Text
  pub web_origin : Option Text
  pub lsp_service_url : Option Text
  pub lsp_base_url : Option Text
  pub lsp_internal_token : Option Text
  pub executor_service_url : Option Text
  pub executor_api_base_url : Option Text
  pub executor_internal_token : Option Text
  pub internal_shared_token : Option Text
  pub internal_service_token : Option Text

-- What the server takes from its platform: the HMAC of a text under a secret as base64url, the origin of
-- new URL(text), a TextDecoder with what it keeps between its calls, the JSON of a text, where `none` is a
-- throw, and whether Date.parse knows a text.
pub record Platform : Type 1 where
  pub sign : (secret text : Text) → Text
  pub origin_of : Text → Option Text
  pub Decoder : Type 0
  pub new_decoder : Decoder
  pub decode_streamed : Decoder → List ℕ → Text × Decoder
  pub decode_rest : Decoder → Text
  pub parse_text : Text → Option Json
  pub is_date : Text → Bool

-- a ?? b
abbrev pub or_else {ℓ} : {A : Type ℓ} → Option A → A → A
or_else none b = b
or_else (some a) b = a

abbrev pub or_option {ℓ} : {A : Type ℓ} → Option A → Option A → Option A
or_option none b = b
or_option (some a) b = some a

-- value === text, for a variable that may not be set.
abbrev pub is_text : Option Text → Text → Bool
is_text none text = false
is_text (some value) text = text_eq value text

-- process.env.NODE_ENV === "production"
unfoldable pub is_production : Env → Bool
is_production env = is_text env.node_env (codes "production")

pub secure_setting : Env → Option Text → Bool
unfolding is_production
secure_setting env none = is_production env
secure_setting env (some setting) = text_eq setting (codes "true")

-- shouldUseSecureCookies
unfoldable pub should_use_secure_cookies : Env → Bool
unfolding secure_setting
should_use_secure_cookies env = secure_setting env env.cookie_secure
