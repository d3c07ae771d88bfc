-- ===== src/Web/Routes.antt =====
-- The POST handlers of apps/web/app/api/lsp/sessions/route.ts and apps/web/app/api/executions/route.ts. They
-- are one chain of steps with other settings: what differs between the two files is a Route.

pub mod Admitted
use smart_c_playground.Prelude.{
  ℕ, ◌+◌, ◌*◌, Bool, true, false, not, ◌&&◌, ◌||◌, Option, none, some, List, [], ◌∷◌, ◌++◌, String,
  ◌==◌, if◌then◌else◌,
}
use smart_c_playground.Text.{Text, codes, includes_text}
use smart_c_playground.Json.{Json, pos, num, str, arr, obj, Items, nil, cons, Fields, end, field}
use smart_c_playground.Contracts.{SourceFile, TerminalSize}
use smart_c_playground.Validation.{
  Validation, value, error, ExecutionRequest, validate_lsp_session_request,
  validate_execution_request,
}
use smart_c_playground.RateLimit.{Rule, Limiter, Verdict, consume_rate_limits}
use smart_c_playground.Web.{Request, json, Response, Env, Platform, or_else, or_option}
use smart_c_playground.Web.Identity.{VisitorIdentity, get_visitor_identity, apply_visitor_cookie}
use smart_c_playground.Web.Http.{
  problem_response, get_client_ip, validate_json_post, BodyResult, body, refused, read_json_body,
}
use smart_c_playground.Web.Services.{
  InternalSession, UpstreamResult, ok, failure, Answer, Call, create_internal_session,
  set_ticket_cookie,
}

-- What the two handlers differ in. The rules are those of a visitor's id and an IP address.
pub record Route (A : Type 0) : Type 0 where
  pub request_rules : Text → Text → List Rule
  pub request_title : String
  pub validate : Option Json → Validation A
  pub invalid_status : String → ℕ
  pub invalid_title : String
  pub rules : Text → Text → List Rule
  pub title : String
  pub url : Env → Text
  pub token : Env → Option Text
  pub upstream_body : A → (visitor_id client_ip : Text) → Json
  pub prefix : Text
  pub answer : InternalSession → Json
  pub ticket_name : Text

-- What a handler returns, the calls that it has made, and the store as its last use of it left it.
pub record Handled : Type 0 where
  pub limiter : Limiter
  pub response : Response
  pub calls : List Call

pub minute_rule : String → Text → (limit : ℕ) → Rule
minute_rule name subject limit = record {
  key = codes name ++ (subject ++ codes ":minute");
  limit = limit;
  window_ms = 60000;
}

pub hour_rule : String → Text → (limit : ℕ) → Rule
hour_rule name subject limit = record {
  key = codes name ++ (subject ++ codes ":hour");
  limit = limit;
  window_ms = 60 * 60000;
}

-- text.replace(/\/$/, "")
unfoldable pub without_last_slash : Text → Text
without_last_slash [] = []
without_last_slash (u ∷ []) = if u == 47 then [] else u ∷ []
without_last_slash (u ∷ (v ∷ text)) = u ∷ without_last_slash (v ∷ text)

unfoldable pub file_json : SourceFile → Json
file_json file =
    obj (field (codes "name") (str file.name) (field (codes "content") (str file.content) end))

unfoldable pub files_json : List SourceFile → Items
unfolding file_json
files_json [] = nil
files_json (file ∷ files) = cons (file_json file) (files_json files)

-- A property that JSON.stringify leaves out where it is undefined.
abbrev field_if : Text → Option Json → Fields → Fields
field_if name none rest = rest
field_if name (some v) rest = field name v rest

-- The settings of apps/web/app/api/lsp/sessions/route.ts.
unfoldable pub lsp_route : Route (List SourceFile)
unfolding minute_rule without_last_slash files_json
lsp_route = record {
  request_rules =
      λ id ip. minute_rule "lsp:request:visitor:" id 60 ∷ minute_rule "lsp:request:ip:" ip 60 ∷ [];
  request_title = "LSPリクエストが多すぎます";
  validate = validate_lsp_session_request;
  invalid_status = λ reason. 400;
  invalid_title = "LSPセッションを作成できません";
  rules = λ id ip. minute_rule "lsp:visitor:" id 10 ∷ minute_rule "lsp:ip:" ip 20 ∷ [];
  title = "LSPセッションの作成回数が多すぎます";
  url = λ env.
      without_last_slash
        (or_else (or_option env.lsp_service_url env.lsp_base_url) (codes "http://lsp:3001"))
      ++ codes "/internal/sessions";
  token = λ env.
      or_option env.lsp_internal_token
        (or_option env.internal_shared_token env.internal_service_token);
  upstream_body = λ files visitor_id client_ip. obj (
      field (codes "files") (arr (files_json files)) (
        field (codes "visitorId") (str visitor_id) (field (codes "clientIp") (str client_ip) end)));
  prefix = codes "/ws/lsp/";
  answer = λ session. obj (
      field (codes "id") (str session.id) (
        field_if (codes "workspaceUri") session.workspace_uri (
          field_if (codes "documentUris") session.document_uris (
            field (codes "webSocketPath") (str session.web_socket_path)
              (field (codes "expiresAt") (str session.expires_at) end)))));
  ticket_name = codes "smart_c_lsp_ticket";
}

unfoldable pub terminal_json : TerminalSize → Json
terminal_json terminal = obj (
    field (codes "cols") (num (pos terminal.cols))
      (field (codes "rows") (num (pos terminal.rows)) end))

-- The settings of apps/web/app/api/executions/route.ts.
unfoldable pub execution_route : Route ExecutionRequest
unfolding minute_rule hour_rule without_last_slash files_json terminal_json
execution_route = record {
  request_rules = λ id ip.
      minute_rule "execution:request:visitor:" id 30
      ∷ minute_rule "execution:request:ip:" ip 30
      ∷ [];
  request_title = "実行リクエストが多すぎます";
  validate = validate_execution_request;
  invalid_status = λ reason. if includes_text (codes reason) (codes "64KiB") then 413 else 400;
  invalid_title = "実行セッションを作成できません";
  rules = λ id ip.
      minute_rule "execution:visitor:" id 6
      ∷ minute_rule "execution:ip:" ip 6
      ∷ hour_rule "execution:ip:" ip 30
      ∷ [];
  title = "実行回数が多すぎます";
  url = λ env.
      without_last_slash (
        or_else (or_option env.executor_service_url env.executor_api_base_url)
          (codes "http://executor-api:4000"))
      ++ codes "/internal/executions";
  token = λ env.
      or_option env.executor_internal_token
        (or_option env.internal_shared_token env.internal_service_token);
  upstream_body = λ request visitor_id client_ip. obj (
      field (codes "files") (arr (files_json request.files)) (
        field (codes "terminal") (terminal_json request.terminal) (
          field (codes "visitorId") (str visitor_id)
            (field (codes "clientIp") (str client_ip) end))));
  prefix = codes "/ws/executions/";
  answer = λ session. obj (
      field (codes "id") (str session.id) (
        field (codes "webSocketPath") (str session.web_socket_path)
          (field (codes "expiresAt") (str session.expires_at) end)));
  ticket_name = codes "smart_c_exec_ticket";
}

-- `meanwhile` is what other requests do to the store while the body is read.
module _ {A : Type 0} (r : Route A) (p : Platform) (env : Env) (upstream : Call → Option Answer)
    (meanwhile : Limiter → Limiter) where
  -- withVisitorCookie around a response, with no call made.
  pub refuse : Limiter → VisitorIdentity → Response → Handled
  refuse l identity response = record {
    limiter = l;
    response = apply_visitor_cookie env response identity;
    calls = [];
  }

  abbrev pub busy : String → Verdict → Response
  busy title verdict =
      problem_response 429 title (some "少し待ってからもう一度お試しください。") (some verdict.retry_after_seconds)

  -- The end of the handler, on what createInternalSession returns.
  pub respond : UpstreamResult → Response
  respond (failure response) = response
  respond (ok session) =
      set_ticket_cookie env
        (record { status = 201; body = json (r.answer session); retry_after = none; cookies = [] })
        r.ticket_name session.ticket session.web_socket_path

  pub forward : A → VisitorIdentity → (client_ip : Text) → Limiter × Verdict → Handled
  unfolding refuse respond
  forward request identity client_ip (l, verdict) =
      let (result, calls) =
        create_internal_session p upstream (r.url env) (r.token env)
          (r.upstream_body request identity.id client_ip) r.prefix in
      if verdict.allowed
      then record {
        limiter = l;
        response = apply_visitor_cookie env (respond result) identity;
        calls = calls;
      }
      else refuse l identity (busy r.title verdict)

  pub after_validation :
      Validation A → VisitorIdentity → (client_ip : Text) → (later : ℕ) → Limiter → Handled
  unfolding refuse forward
  after_validation (error reason) identity client_ip later l =
      refuse l identity
        (problem_response (r.invalid_status reason) r.invalid_title (some reason) none)
  after_validation (value request) identity client_ip later l =
      forward request identity client_ip
        (consume_rate_limits (meanwhile l) (r.rules identity.id client_ip) later)

  pub after_body :
      BodyResult → VisitorIdentity → (client_ip : Text) → (later : ℕ) → Limiter → Handled
  unfolding refuse after_validation
  after_body (refused response) identity client_ip later l = refuse l identity response
  after_body (body content) identity client_ip later l =
      after_validation (r.validate (some content)) identity client_ip later l

  pub after_limit :
      Request → VisitorIdentity → (client_ip : Text) → (later : ℕ) → Limiter × Verdict → Handled
  unfolding refuse after_body
  after_limit request identity client_ip later (l, verdict) =
      if verdict.allowed
      then after_body (read_json_body p request) identity client_ip later l
      else refuse l identity (busy r.request_title verdict)

  pub after_identity : Request → Option VisitorIdentity → (now later : ℕ) → Limiter → Handled
  unfolding after_limit
  after_identity request none now later l = record {
    limiter = l;
    response = problem_response 503 "匿名利用者の設定が完了していません" none none;
    calls = [];
  }
  after_identity request (some identity) now later l =
      let client_ip = get_client_ip request.forwarded_for in
      after_limit request identity client_ip later
        (consume_rate_limits l (r.request_rules identity.id client_ip) now)

  pub after_check :
      Option Response → Request → (random_uuid : Text) → (now later : ℕ) → Limiter → Handled
  unfolding after_identity
  after_check (some response) request random_uuid now later l = record {
    limiter = l;
    response = response;
    calls = [];
  }
  after_check none request random_uuid now later l =
      after_identity request (get_visitor_identity p env request.visitor_cookie random_uuid) now
        later l

  -- POST. The two calls of consumeRateLimits read the clock at `now` and `later`.
  unfoldable pub post : Request → (random_uuid : Text) → (now later : ℕ) → Limiter → Handled
  unfolding after_check
  post request random_uuid now later l =
      after_check (validate_json_post p env request) request random_uuid now later l

-- POST of apps/web/app/api/lsp/sessions/route.ts
abbrev pub post_lsp_session :
    Platform
    → Env
    → (Call → Option Answer)
    → (Limiter → Limiter)
    → Request
    → Text
    → (now later : ℕ) → Limiter
    → Handled
post_lsp_session = post lsp_route

-- POST of apps/web/app/api/executions/route.ts
abbrev pub post_execution :
    Platform
    → Env
    → (Call → Option Answer)
    → (Limiter → Limiter)
    → Request
    → Text
    → (now later : ℕ) → Limiter
    → Handled
post_execution = post execution_route
