-- ===== src/Examples/Web.antt =====
-- Requests to the handlers of the web service, and to the service behind them.
use smart_c_playground.Prelude.{
  ℕ, ◌≡◌, refl, sym, ap, true, false, none, some, List, [], ◌∷◌, ◌++◌, if◌then◌else◌, ltb, length,
}
use mathlib.Core.List.{append_assoc, append-nil}
use smart_c_playground.Text.{Text, codes, text_eq, includes, last_index_of}
use smart_c_playground.Text.Utf8.{utf8}
use smart_c_playground.Json.{obj, end, field}
use smart_c_playground.RateLimit.{reset}
use smart_c_playground.Validation.Accepted.{AreSafe}
use smart_c_playground.Validation.Requests.{IsSafeRequest}
use smart_c_playground.Web.{chunk, done, Request, Env, Platform, is_production}
use smart_c_playground.Web.Identity.{
  VisitorIdentity, dot, get_visitor_identity, get_visitor_secret, verify_visitor_cookie,
  is_visitor_id,
}
use smart_c_playground.Web.Identity.Issued.{
  IsSigned, verify_visitor_cookie-IsSigned, get_visitor_identity_again,
}
use smart_c_playground.Web.Http.{max_request_bytes, parsed, refused, too_large, read_stream}
use smart_c_playground.Web.Http.Bodies.{chunks, joined, IsStreaming, decoded, read_stream-chunks}
use smart_c_playground.Web.Routes.{lsp_route, execution_route, post_lsp_session, post_execution}
use smart_c_playground.Web.Routes.Admitted.{
  RefusesOrCalls, post_lsp_session-RefusesOrCalls, post_execution-RefusesOrCalls,
}
use smart_c_playground.Examples.Requests.{files}

abbrev uuid : Text
uuid = codes "11111111-1111-4111-8111-111111111111"

abbrev other_uuid : Text
other_uuid = codes "22222222-2222-4222-8222-222222222222"

abbrev env : Env
env = record {
  node_env = none;
  cookie_secure = none;
  visitor_cookie_secret = none;
  session_signing_secret = none;
  web_origin = none;
  lsp_service_url = none;
  lsp_base_url = none;
  lsp_internal_token = some (codes "token");
  executor_service_url = none;
  executor_api_base_url = none;
  executor_internal_token = some (codes "token");
  internal_shared_token = none;
  internal_service_token = none;
}

-- Every body is the same request, and every signature the same text.
abbrev platform : Platform
platform = record {
  sign = λ secret text. codes "signature";
  origin_of = λ url. some url;
  Decoder = Text;
  new_decoder = [];
  decode_streamed = λ held bytes. ([], held ++ bytes);
  decode_rest = λ held. held;
  parse_text = λ text. some (obj (field (codes "files") files end));
  is_date = λ text. true;
}

abbrev request : Request
request = record {
  content_type = some (codes "application/json");
  content_length = some 2;
  origin = some (codes "http://localhost:8080");
  forwarded_for = some (codes "192.0.2.1, 10.0.0.1");
  visitor_cookie = none;
  body = some (chunk (123 ∷ []) (chunk (125 ∷ []) done));
  cancel_fails = false;
}

post_lsp_session-RefusesOrCalls_example :
    RefusesOrCalls lsp_route platform env
      (λ call. none)
      (λ l. l)
      AreSafe
      request
      uuid
      0
      1
      reset
      (post_lsp_session platform env (λ call. none) (λ l. l) request uuid 0 1 reset)
post_lsp_session-RefusesOrCalls_example =
    post_lsp_session-RefusesOrCalls platform env (λ call. none) (λ l. l) request uuid 0 1 reset

post_execution-RefusesOrCalls_example :
    RefusesOrCalls execution_route platform env
      (λ call. none)
      (λ l. l)
      IsSafeRequest
      request
      uuid
      0
      1
      reset
      (post_execution platform env (λ call. none) (λ l. l) request uuid 0 1 reset)
post_execution-RefusesOrCalls_example =
    post_execution-RefusesOrCalls platform env (λ call. none) (λ l. l) request uuid 0 1 reset

-- A body in two chunks.
abbrev two_chunks : List (List ℕ)
two_chunks = (123 ∷ []) ∷ (125 ∷ []) ∷ []

platform-IsStreaming : IsStreaming platform
platform-IsStreaming = record {
  nothing = λ d. ap (λ (e : Text). ([], e)) (append-nil d);
  in_parts = λ d a b. ap (λ (e : Text). ([], e)) (sym (append_assoc d a b));
}

read_stream-chunks_example : read_stream platform false (some (chunks two_chunks)) ≡ (
    if ltb max_request_bytes (length (joined two_chunks))
    then refused too_large
    else parsed (platform.parse_text (decoded platform platform.new_decoder (joined two_chunks))))
read_stream-chunks_example = read_stream-chunks platform platform-IsStreaming false two_chunks

abbrev cookie : Text
cookie = uuid ++ dot ∷ codes "signature"

verify_visitor_cookie-IsSigned_example : IsSigned platform env cookie uuid
unfolding verify_visitor_cookie last_index_of is_visitor_id codes get_visitor_secret text_eq utf8
    is_production
verify_visitor_cookie-IsSigned_example =
    verify_visitor_cookie-IsSigned platform env cookie uuid refl

abbrev visitor : VisitorIdentity
visitor = record { id = uuid; cookie_value = cookie; should_set_cookie = true }

get_visitor_identity_again_example :
    get_visitor_identity platform env (some cookie) other_uuid
    ≡ some (record { id = uuid; cookie_value = cookie; should_set_cookie = false })
unfolding is_visitor_id codes includes get_visitor_identity get_visitor_secret is_production
get_visitor_identity_again_example =
    get_visitor_identity_again platform env (λ secret id. refl) none uuid other_uuid visitor refl
      refl
