-- ===== src/App.antt =====
-- apps/lsp/src/app.ts: the HTTP interface of the LSP service, by the handlers of its routes.

pub mod Identifiers
pub mod Forwarded
pub mod Creations
use smart_c_playground.Prelude.{
  ℕ, ◌*◌, ◌≡◌, Bool, true, false, not, ◌&&◌, ◌||◌, Option, none, some, ◌>>=◌, List, [], ◌∷◌, String,
  leb, ◌==◌, if◌then◌else◌, length,
}
use smart_c_playground.Text.{Text, codes, text_eq, includes, before_unit, trim}
use smart_c_playground.Text.Utf8.{utf8}
use smart_c_playground.Json.{
  Json, pos, num, str, obj, Fields, end, field, as_string, as_array, prop,
}
use smart_c_playground.Map.{Map}
use smart_c_playground.Contracts.{
  SourceFile, as_record, valid_name, content_of, is_valid_source_files, to_lower_case,
}
use smart_c_playground.Ticket.{IssuedTicket}
use smart_c_playground.Manager.State.{
  LimitKind, global, visitor, ip, shutting_down, Result, ok, limit_error, Request, Session, Config,
  Manager,
}
use smart_c_playground.Manager.Quota.{reserve}
use smart_c_playground.Manager.Sessions.{finish_create}
use smart_c_playground.Manager.Closing.{stats, is_accepting_sessions}

abbrev pub visitor_id_max_length : ℕ
visitor_id_max_length = 128

abbrev pub client_ip_max_length : ℕ
client_ip_max_length = 128

-- A response: a problem, a session, or another JSON.
pub data Response : Type 0 where
  problem : (kind : String) → (title : String) → (status : ℕ) → (detail : Option String) → Response
  created : Session → IssuedTicket → Response
  json : (status : ℕ) → Json → Response

unfoldable pub status_of : Response → ℕ
status_of (problem kind title status detail) = status
status_of (created session ticket) = 201
status_of (json status value) = status

-- What the handler of POST reads. `too_large` says that Hono's bodyLimit refuses the body, and a body that
-- is no JSON is `none`.
pub record Post : Type 0 where
  pub too_large : Bool
  pub internal_token : Option Text
  pub content_type : Option Text
  pub body : Option Json

-- hasValidInternalToken
unfoldable pub has_valid_internal_token : Option Text → Text → Bool
has_valid_internal_token none expected = false
has_valid_internal_token (some received) expected = text_eq (utf8 received) (utf8 expected)

-- isJsonContentType
unfoldable pub is_json_content_type : Option Text → Bool
is_json_content_type none = false
is_json_content_type (some content_type) =
    text_eq (to_lower_case (trim (before_unit content_type 59))) (codes "application/json")

-- isBoundedString on a string
unfoldable pub is_bounded : Text → (maximum_length : ℕ) → Bool
is_bounded value maximum_length =
    not (length value == 0)
    && leb (length value) maximum_length
    && not (includes value 0 || includes value 13 || includes value 10)

pub bounded_string : Option Json → (maximum_length : ℕ) → Option Text
unfolding is_bounded
bounded_string value maximum_length = do
  text ← as_string value
  if is_bounded text maximum_length then some text else none

pub source_file : Json → Option SourceFile
source_file file = do
  name ← valid_name file
  content ← content_of file
  some (record { name = name; content = content })

-- The files of an array that isValidSourceFiles accepts.
pub source_files : List Json → Option (List SourceFile)
unfolding source_file
source_files [] = some []
source_files (file ∷ files) = do
  head ← source_file file
  rest ← source_files files
  some (head ∷ rest)

-- isCreateSessionRequest, and the request.
unfoldable pub create_session_request : Option Json → Option Request
unfolding bounded_string source_files
create_session_request value = do
  fields ← as_record value
  array ←
      if is_valid_source_files (prop fields "files") then as_array (prop fields "files") else none
  files ← source_files array
  visitor_id ← bounded_string (prop fields "visitorId") visitor_id_max_length
  client_ip ← bounded_string (prop fields "clientIp") client_ip_max_length
  some (record { files = files; visitor_id = visitor_id; client_ip = client_ip })

-- A POST is answered, or createSession has reserved a place and goes on to write the files.
pub data Started : Type 0 where
  answered : Response → Started
  creating : Request → Started

-- The answer to a SessionLimitError.
unfoldable pub limit_response : LimitKind → Response
limit_response global = problem "urn:smart-c:problem:lsp-capacity" "LSPサービスが混雑しています" 503 none
limit_response shutting_down = problem "urn:smart-c:problem:lsp-capacity" "LSPサービスが混雑しています" 503 none
limit_response visitor =
    problem "urn:smart-c:problem:lsp-rate-limit" "同時に利用できるLSPセッション数を超えました" 429 none
limit_response ip = problem "urn:smart-c:problem:lsp-rate-limit" "同時に利用できるLSPセッション数を超えました" 429 none

module _ (o : Config) where
  pub after_reserve : Manager → Request → Result Manager → Manager × Started
  unfolding limit_response
  after_reserve m request (ok reserved) = (reserved, creating request)
  after_reserve m request (limit_error kind) = (m, answered (limit_response kind))

  pub after_request : Manager → Option Request → Manager × Started
  unfolding after_reserve
  after_request m none =
      (m, answered (problem "urn:smart-c:problem:invalid-request" "LSPセッション作成リクエストが不正です" 400 none))
  after_request m (some request) =
      after_reserve m request (reserve o m request.visitor_id request.client_ip)

  pub after_json : Manager → Option Json → Manager × Started
  unfolding after_request
  after_json m none =
      (m, answered (problem "urn:smart-c:problem:invalid-json" "JSONを解析できません" 400 none))
  after_json m (some value) = after_request m (create_session_request (some value))

  -- The handler of POST /internal/sessions behind bodyLimit, up to the first wait of createSession. The
  -- manager is as it is `at_arrival` and, once the body is read, as `m`.
  unfoldable pub post_sessions :
      (internal_token : Text)
      → (is_ready : Bool) → (at_arrival m : Manager) → Post
      → Manager × Started
  unfolding after_json
  post_sessions internal_token is_ready at_arrival m post =
      if post.too_large
      then (
        m,
        answered (
            problem "urn:smart-c:problem:request-too-large" "リクエストが大きすぎます" 413
              (some "Cソースは64KiB以下にしてください。")),
      )
      else if not (has_valid_internal_token post.internal_token internal_token)
      then (m, answered (problem "urn:smart-c:problem:unauthorized" "内部サービス認証に失敗しました" 401 none))
      else if not is_ready || not (is_accepting_sessions at_arrival)
      then (m, answered (problem "urn:smart-c:problem:lsp-unavailable" "LSPサービスを利用できません" 503 none))
      else if not (is_json_content_type post.content_type)
      then (
        m,
        answered (
            problem "urn:smart-c:problem:unsupported-media-type" "Content-Typeが不正です" 415
              (some "application/jsonを指定してください。")),
      )
      else after_json m post.body

  abbrev response_to : Option (Session × IssuedTicket) → Response
  response_to none = problem "urn:smart-c:problem:internal-error" "LSPセッションを作成できませんでした" 500 none
  response_to (some (session, ticket)) = created session ticket

  -- The end of the handler: the files are written, or an error was thrown.
  unfoldable pub finish_post :
      Manager
      → (id : Text) → Request
      → (written : Bool) → (now : ℕ) → (nonce : Text) → Manager × Response
  finish_post m id request written now nonce =
      let (next, made) = finish_create o m id request written now nonce in (next, response_to made)

  -- readinessResponse; checkedAt is the text of the last check, or null.
  unfoldable pub readiness_response : (is_ready : Bool) → (checked_at : Json) → Manager → Response
  readiness_response is_ready checked_at m =
      let ready = is_ready && is_accepting_sessions m in
      json (if ready then 200 else 503) (
        obj (
          field (codes "status") (str (codes (if ready then "ok" else "unavailable"))) (
            field (codes "service") (str (codes "lsp")) (
              field (codes "clangd") (str (codes (if is_ready then "ready" else "unavailable"))) (
                field (codes "checkedAt") checked_at (
                  field (codes "sessions")
                    (obj (
                      field (codes "active") (num (pos (stats o m).0))
                        (field (codes "maximum") (num (pos (stats o m).1)) end)))
                    end))))))

-- The other routes.
unfoldable pub live : Response
live = json 200 (
    obj
      (field (codes "status") (str (codes "ok")) (field (codes "service") (str (codes "lsp")) end)))

unfoldable pub web_socket_required : Response
web_socket_required =
    problem "urn:smart-c:problem:websocket-required" "WebSocket Upgradeが必要です" 426 none

unfoldable pub not_found : Response
not_found = problem "urn:smart-c:problem:not-found" "エンドポイントが見つかりません" 404 none
