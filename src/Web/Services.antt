-- ===== src/Web/Services.antt =====
-- apps/web/lib/server/services.ts: the call of an internal service that makes a session.
use smart_c_playground.Prelude.{
  ◌==◌, ℕ, Bool, true, false, not, ◌&&◌, ◌||◌, Option, none, some, List, [], ◌∷◌, ◌++◌, leb,
  if◌then◌else◌, is_some, ◌>>=◌,
}
use smart_c_playground.Text.{Text, codes, text_eq, starts_with, includes_text}
use smart_c_playground.Json.{Json, Fields, end, field, prop, as_object, as_string, properties_of}
use smart_c_playground.Web.{passed_on, Response, Env, Platform, or_else, should_use_secure_cookies}
use smart_c_playground.Web.Http.{problem_response}

-- InternalSessionResponse; the last two are read only of the language server's answer.
pub record InternalSession : Type 0 where
  pub id : Text
  pub web_socket_path : Text
  pub expires_at : Text
  pub ticket : Text
  pub workspace_uri : Option Json
  pub document_uris : Option Json

-- UpstreamResult
pub data UpstreamResult : Type 0 where
  ok : InternalSession → UpstreamResult
  failure : Response → UpstreamResult

-- The answer of the service to fetch.
pub record Answer : Type 0 where
  pub status : ℕ
  pub text : Text
  pub content_type : Option Text
  pub retry_after : Option Text

-- A request that fetch is asked to make: a POST of the JSON with the token in its header.
pub record Call : Type 0 where
  pub url : Text
  pub token : Text
  pub body : Json

abbrev is_string : Option Json → Bool
is_string value = is_some (as_string value)

pub are_strings : Fields → Bool
are_strings end = true
are_strings (field name value rest) = is_string (some value) && are_strings rest

-- isStringRecord, with the check of main.c that follows it.
unfoldable pub has_document_uris : Option Json → Bool
unfolding are_strings
has_document_uris value = elim (as_object value) [
  | none ↦ false
  | some fields ↦ are_strings fields && is_string (prop fields "main.c")
]

-- The session that the properties describe, where they pass every check.
pub session_of : Platform → (expected_web_socket_prefix : Text) → Fields → Option InternalSession
unfolding has_document_uris
session_of p expected_web_socket_prefix fields = do
  id ← as_string (prop fields "id")
  web_socket_path ← as_string (prop fields "webSocketPath")
  expires_at ← as_string (prop fields "expiresAt")
  ticket ← as_string (prop fields "ticket")
  if starts_with web_socket_path expected_web_socket_prefix
        && not (includes_text web_socket_path (codes ".."))
        && p.is_date expires_at
        && not (text_eq ticket [])
        && (not (text_eq expected_web_socket_prefix (codes "/ws/lsp/"))
            || is_string (prop fields "workspaceUri")
              && has_document_uris (prop fields "documentUris"))
      then some (record {
        id = id;
        web_socket_path = web_socket_path;
        expires_at = expires_at;
        ticket = ticket;
        workspace_uri = prop fields "workspaceUri";
        document_uris = prop fields "documentUris";
      })
      else none

pub unreachable : UpstreamResult
unreachable = failure (problem_response 503 "内部サービスへ接続できません" (some "しばらく待ってからもう一度お試しください。") none)

pub checked : Option InternalSession → UpstreamResult
checked none = failure (problem_response 502 "内部サービスの応答が不正です" none none)
checked (some session) = ok session

pub result_of_json : Platform → Text → Option Json → UpstreamResult
unfolding unreachable checked session_of
result_of_json p expected_web_socket_prefix none = unreachable
result_of_json p expected_web_socket_prefix (some value) = elim (properties_of value) [
  | none ↦ unreachable
  | some fields ↦ checked (session_of p expected_web_socket_prefix fields)
]

-- new NextResponse(text, { status }) does not throw: the status is in range, and not one of a response that
-- has no body.
unfoldable pub may_have_body : (status : ℕ) → Bool
may_have_body status =
    leb 200 status && leb status 599 && not (status == 204 || status == 205 || status == 304)

-- What is made of the answer, where `none` is that fetch, or the reading of the text, throws.
pub result_of : Platform → Text → Option Answer → UpstreamResult
unfolding unreachable result_of_json may_have_body
result_of p expected_web_socket_prefix none = unreachable
result_of p expected_web_socket_prefix (some answer) =
    if leb 200 answer.status && leb answer.status 299
    then result_of_json p expected_web_socket_prefix (p.parse_text answer.text)
    else if not (may_have_body answer.status)
    then unreachable
    else failure (record {
      status = answer.status;
      body = passed_on answer.text (or_else answer.content_type (codes "application/problem+json"));
      retry_after = answer.retry_after;
      cookies = [];
    })

unfoldable pub no_token : UpstreamResult
no_token = failure (problem_response 503 "サービス設定が完了していません" (some "内部通信用トークンが設定されていません。") none)

-- createInternalSession, with the request that it makes, if it makes one; `upstream` is who answers.
unfoldable pub create_internal_session :
    Platform
    → (upstream : Call → Option Answer) → (url : Text) → (token : Option Text) → (body : Json)
    → (expected_web_socket_prefix : Text) → UpstreamResult × List Call
unfolding no_token result_of
create_internal_session p upstream url none body expected_web_socket_prefix = (no_token, [])
create_internal_session p upstream url (some []) body expected_web_socket_prefix = (no_token, [])
create_internal_session p upstream url (some (u ∷ token)) body expected_web_socket_prefix =
    let call : Call = record { url = url; token = u ∷ token; body = body } in
    (result_of p expected_web_socket_prefix (upstream call), call ∷ [])

-- setTicketCookie
unfoldable pub set_ticket_cookie : Env → Response → (name value path : Text) → Response
set_ticket_cookie env response name value path = record response {
  cookies =
      response.cookies
      ++ record {
        name = name;
        value = value;
        max_age = 30;
        path = path;
        http_only = true;
        same_site = codes "strict";
        secure = should_use_secure_cookies env;
      }
        ∷ [];
}
