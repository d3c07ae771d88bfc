-- ===== src/App/Creations.antt =====
-- Which POSTs to apps/lsp/src/app.ts begin a session.
use smart_c_playground.Prelude.{
  ◌≤◌, ◌≡◌, refl, Bool, true, not, ◌||◌, Option, none, some, arith, if_cases,
}
use smart_c_playground.Text.{Text, text_eq_iff}
use smart_c_playground.Text.Utf8.{utf8}
use smart_c_playground.Json.{Json}
use smart_c_playground.Manager.State.{
  LimitKind, global, visitor, ip, shutting_down, Result, ok, limit_error, Request, Config, Manager,
}
use smart_c_playground.Manager.Quota.{reserve}
use smart_c_playground.Manager.Closing.{is_accepting_sessions}
use smart_c_playground.App.{
  Response, status_of, Post, has_valid_internal_token, is_json_content_type, create_session_request,
  Started, answered, creating, limit_response, after_reserve, after_request, after_json,
  post_sessions,
}

module _ (o : Config) (internal_token : Text) (is_ready : Bool) (at_arrival m : Manager)
    (post : Post) where
  -- The POST is refused with a status of 400 or more and nothing changes, or it comes with the token, while
  -- clangd is ready and sessions are accepted, as JSON of a valid request, and a place is reserved for it.
  pub data IsHandled : Manager × Started → Type 0 where
    refuses : (response : Response) → 400 ≤ status_of response → IsHandled (m, answered response)
    begins :
        (token : Text) (value : Json) (request : Request) (reserved : Manager)
        → post.internal_token ≡ some token
        → utf8 token ≡ utf8 internal_token
        → is_ready ≡ true
        → is_accepting_sessions at_arrival ≡ true
        → is_json_content_type post.content_type ≡ true
        → post.body ≡ some value
        → create_session_request (some value) ≡ some request
        → reserve o m request.visitor_id request.client_ip ≡ ok reserved
        → IsHandled (reserved, creating request)

  token_of :
      (received : Option Text)
      → has_valid_internal_token received internal_token ≡ true
      → (token : Text) × (received ≡ some token) × (utf8 token ≡ utf8 internal_token)
  unfolding has_valid_internal_token
  token_of none h = cc
  token_of (some token) h = (token, refl, (text_eq_iff (utf8 token) (utf8 internal_token)).0 h)

  limit_response-refuses : (kind : LimitKind) → 400 ≤ status_of (limit_response kind)
  unfolding limit_response status_of
  limit_response-refuses global = omega arith
  limit_response-refuses visitor = omega arith
  limit_response-refuses ip = omega arith
  limit_response-refuses shutting_down = omega arith

  module _ (token : Text) (sent : post.internal_token ≡ some token)
      (valid : utf8 token ≡ utf8 internal_token) (ready : is_ready ≡ true)
      (accepting : is_accepting_sessions at_arrival ≡ true)
      (is_json : is_json_content_type post.content_type ≡ true) where
    after_reserve-IsHandled :
        (value : Json) (request : Request) (r : Result Manager)
        → post.body ≡ some value
        → create_session_request (some value) ≡ some request
        → reserve o m request.visitor_id request.client_ip ≡ r
        → IsHandled (after_reserve o m request r)
    unfolding after_reserve
    after_reserve-IsHandled value request (ok reserved) b c e =
        begins token value request reserved sent valid ready accepting is_json b c e
    after_reserve-IsHandled value request (limit_error kind) b c e =
        refuses (limit_response kind) (limit_response-refuses kind)

    after_request-IsHandled :
        (value : Json) (request : Option Request)
        → post.body ≡ some value
        → create_session_request (some value) ≡ request
        → IsHandled (after_request o m request)
    unfolding after_request status_of
    after_request-IsHandled value none b c = refuses _ (omega arith)
    after_request-IsHandled value (some request) b c =
        after_reserve-IsHandled value request (reserve o m request.visitor_id request.client_ip) b c
          refl

    after_json-IsHandled : (body : Option Json) → post.body ≡ body → IsHandled (after_json o m body)
    unfolding after_json status_of
    after_json-IsHandled none b = refuses _ (omega arith)
    after_json-IsHandled (some value) b =
        after_request-IsHandled value (create_session_request (some value)) b refl

  -- A POST to the LSP service is either refused with a status of 400 or more and nothing changes,
  -- or it has the internal token, clangd is ready and sessions are accepted, it is JSON of a valid
  -- request, and a place is reserved for the visitor and the address of the request.
  pub post_sessions-IsHandled :
      IsHandled (post_sessions o internal_token is_ready at_arrival m post)
  unfolding post_sessions status_of
  post_sessions-IsHandled =
      if_cases IsHandled post.too_large (λ _. refuses _ (omega arith))
        (λ _.
          if_cases IsHandled (not (has_valid_internal_token post.internal_token internal_token))
            (λ _. refuses _ (omega arith))
            (λ t.
              if_cases IsHandled (not is_ready || not (is_accepting_sessions at_arrival))
                (λ _. refuses _ (omega arith))
                (λ a.
                  if_cases IsHandled (not (is_json_content_type post.content_type))
                    (λ _. refuses _ (omega arith))
                    (λ j.
                      let (token, sent, valid) = token_of post.internal_token (ground (arith, t)) in
                      after_json-IsHandled token sent valid (ground (arith, a)) (ground (arith, a))
                        (ground (arith, j)) post.body refl))))
