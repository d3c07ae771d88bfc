-- ===== src/Web/Routes/Admitted.antt =====
-- Which requests the POST handlers of apps/web/app/api pass on to an internal service.
use smart_c_playground.Prelude.{
  ℕ, ◌≤◌, ◌≡◌, refl, subst, ◌⊎◌, inl, inr, true, Option, none, some, List, [], ◌∷◌, String, arith,
  if_cases,
}
use smart_c_playground.Text.{Text}
use smart_c_playground.Json.{Json}
use smart_c_playground.RateLimit.{Limiter, Verdict, consume_rate_limits}
use smart_c_playground.Validation.{Validation, value, error}
use smart_c_playground.Validation.Accepted.{AreSafe}
use smart_c_playground.Validation.Requests.{
  IsSafeRequest, validate_lsp_session_request-AreSafe, validate_execution_request-IsSafeRequest,
}
use smart_c_playground.Web.{Request, Response, Env, Platform}
use smart_c_playground.Web.Identity.{VisitorIdentity, get_visitor_identity, apply_visitor_cookie}
use smart_c_playground.Web.Http.{
  problem_response, get_client_ip, validate_json_post, BodyResult, body, refused, read_json_body,
}
use smart_c_playground.Web.Http.Refusals.{
  IsRefusal, IsSameOriginJson, validate_json_post-RefusesBy, validate_json_post-none, RefusesBody,
  read_stream-RefusesBody,
}
use smart_c_playground.Web.Services.{
  UpstreamResult, Answer, Call, create_internal_session, no_token,
}
use smart_c_playground.Web.Routes.{
  Route, Handled, refuse, busy, respond, forward, after_validation, after_body, after_limit,
  after_identity, after_check, post, lsp_route, execution_route, post_lsp_session, post_execution,
}

apply_visitor_cookie-IsRefusal :
    (env : Env) (response : Response) (identity : VisitorIdentity)
    → IsRefusal response
    → IsRefusal (apply_visitor_cookie env response identity)
unfolding apply_visitor_cookie
apply_visitor_cookie-IsRefusal env response identity h =
    if_cases IsRefusal identity.should_set_cookie (λ _. h) (λ _. h)

module _ {A : Type 0} (r : Route A) (p : Platform) (env : Env) (upstream : Call → Option Answer)
    (meanwhile : Limiter → Limiter) (Safe : A → Type 0) (request : Request) (random_uuid : Text)
    (now later : ℕ) (before : Limiter) where
  -- What holds of a call: the request is a JSON POST of the site itself, its visitor is known or new, both
  -- rate limits let it pass, its body is read, the route validates it as `a`, which is safe, and the call
  -- tells `a` for that visitor.
  pub data IsAdmitted (call : Call) : Type 0 where
    admitted :
        (identity : VisitorIdentity) (content : Json) (a : A)
        → IsSameOriginJson p env request
        → get_visitor_identity p env request.visitor_cookie random_uuid ≡ some identity
        → (let first =
              consume_rate_limits before
                (r.request_rules identity.id (get_client_ip request.forwarded_for))
                now in
            (first.1.allowed ≡ true)
            × ((consume_rate_limits
                  (meanwhile first.0)
                  (r.rules identity.id (get_client_ip request.forwarded_for))
                  later).1.allowed
                ≡ true))
        → read_json_body p request ≡ body content
        → r.validate (some content) ≡ value a
        → Safe a
        → call.body ≡ r.upstream_body a identity.id (get_client_ip request.forwarded_for)
        → call.url ≡ r.url env
        → IsAdmitted call

  -- A handler refuses and calls nobody, or it makes one call, and that is admitted.
  abbrev pub RefusesOrCalls : Handled → Type 0
  RefusesOrCalls h =
      ((h.calls ≡ []) × IsRefusal h.response)
      ⊎ ((call : Call) × (h.calls ≡ call ∷ []) × IsAdmitted call)

  refuse-RefusesOrCalls :
      (l : Limiter) (identity : VisitorIdentity) (response : Response)
      → IsRefusal response
      → RefusesOrCalls (refuse r p env upstream meanwhile l identity response)
  unfolding refuse
  refuse-RefusesOrCalls l identity response h =
      inl (refl, apply_visitor_cookie-IsRefusal env response identity h)

  -- createInternalSession has no token and calls nobody, or it makes the one call that it is asked for.
  abbrev Created : Text → Json → UpstreamResult × List Call → Type 0
  Created url content result =
      ((result.1 ≡ []) × (result.0 ≡ no_token))
      ⊎ ((call : Call) × (result.1 ≡ call ∷ []) × (call.body ≡ content) × (call.url ≡ url))

  create-Created :
      (url : Text) (token : Option Text) (content : Json) (prefix : Text)
      → Created url content (create_internal_session p upstream url token content prefix)
  unfolding create_internal_session
  create-Created url none content prefix = inl (refl, refl)
  create-Created url (some []) content prefix = inl (refl, refl)
  create-Created url (some (u ∷ token)) content prefix =
      inr (record { url = url; token = u ∷ token; body = content }, refl, refl, refl)

  respond-no_token :
      (result : UpstreamResult)
      → result ≡ no_token
      → IsRefusal (respond r p env upstream meanwhile result)
  unfolding respond no_token problem_response
  respond-no_token result e = rw e (omega arith)

  module _ (identity : VisitorIdentity) (site : IsSameOriginJson p env request)
      (known : get_visitor_identity p env request.visitor_cookie random_uuid ≡ some identity) where
    abbrev ip : Text
    ip = get_client_ip request.forwarded_for

    abbrev first : Limiter × Verdict
    first = consume_rate_limits before (r.request_rules identity.id ip) now

    abbrev second : Limiter × Verdict
    second = consume_rate_limits (meanwhile first.0) (r.rules identity.id ip) later

    forward-RefusesOrCalls :
        (content : Json) (a : A)
        → first.1.allowed ≡ true
        → read_json_body p request ≡ body content
        → r.validate (some content) ≡ value a
        → Safe a
        → RefusesOrCalls (forward r p env upstream meanwhile a identity ip second)
    unfolding forward problem_response
    forward-RefusesOrCalls content a f b v s =
        let made =
          create_internal_session p upstream (r.url env) (r.token env)
            (r.upstream_body a identity.id ip) r.prefix in
        if_cases RefusesOrCalls second.1.allowed
          (λ e.
            elim (create-Created (r.url env) (r.token env) (r.upstream_body a identity.id ip)
              r.prefix) [
                | inl (c, n) ↦
                    inl
                      (c, apply_visitor_cookie-IsRefusal env _ identity (respond-no_token made.0 n))
                | inr (call, c, told, url) ↦
                    inr (call, c, admitted identity content a site known (f, e) b v s told url)
              ])
          (λ e.
            refuse-RefusesOrCalls second.0 identity
              (busy r p env upstream meanwhile r.title second.1) (omega arith))

    module _ (sound : (v : Option Json) (a : A) → r.validate v ≡ value a → Safe a)
        (bad : (reason : String) → 400 ≤ r.invalid_status reason) where
      after_validation-RefusesOrCalls :
          (content : Json) (v : Validation A)
          → r.validate (some content) ≡ v
          → first.1.allowed ≡ true
          → read_json_body p request ≡ body content
          → RefusesOrCalls (after_validation r p env upstream meanwhile v identity ip later first.0)
      unfolding after_validation problem_response
      after_validation-RefusesOrCalls content (error reason) e f b =
          refuse-RefusesOrCalls first.0 identity
            (problem_response (r.invalid_status reason) r.invalid_title (some reason) none)
            (bad reason)
      after_validation-RefusesOrCalls content (value a) e f b =
          forward-RefusesOrCalls content a f b e (sound (some content) a e)

      after_body-RefusesOrCalls :
          (result : BodyResult)
          → read_json_body p request ≡ result
          → first.1.allowed ≡ true
          → RefusesOrCalls (after_body r p env upstream meanwhile result identity ip later first.0)
      unfolding after_body
      after_body-RefusesOrCalls (body content) e f =
          after_validation-RefusesOrCalls content (r.validate (some content)) refl f e
      after_body-RefusesOrCalls (refused response) e f =
          refuse-RefusesOrCalls first.0 identity response
            (subst RefusesBody e (read_stream-RefusesBody p request.cancel_fails request.body))

      after_limit-RefusesOrCalls :
          RefusesOrCalls (after_limit r p env upstream meanwhile request identity ip later first)
      unfolding after_limit problem_response
      after_limit-RefusesOrCalls =
          if_cases RefusesOrCalls first.1.allowed
            (λ e. after_body-RefusesOrCalls (read_json_body p request) refl e)
            (λ _.
              refuse-RefusesOrCalls first.0 identity
                (busy r p env upstream meanwhile r.request_title first.1) (omega arith))

  module _ (sound : (v : Option Json) (a : A) → r.validate v ≡ value a → Safe a)
      (bad : (reason : String) → 400 ≤ r.invalid_status reason) where
    after_identity-RefusesOrCalls :
        (identity : Option VisitorIdentity)
        → IsSameOriginJson p env request
        → get_visitor_identity p env request.visitor_cookie random_uuid ≡ identity
        → RefusesOrCalls
            (after_identity r p env upstream meanwhile request identity now later before)
    unfolding after_identity problem_response
    after_identity-RefusesOrCalls none site e = inl (refl, omega arith)
    after_identity-RefusesOrCalls (some identity) site e =
        after_limit-RefusesOrCalls identity site e sound bad

    after_check-RefusesOrCalls :
        (check : Option Response)
        → validate_json_post p env request ≡ check
        → RefusesOrCalls
            (after_check r p env upstream meanwhile check request random_uuid now later before)
    unfolding after_check
    after_check-RefusesOrCalls (some response) e =
        inl (refl, validate_json_post-RefusesBy p env request response e)
    after_check-RefusesOrCalls none e =
        after_identity-RefusesOrCalls
          (get_visitor_identity p env request.visitor_cookie random_uuid)
          (validate_json_post-none p env request e) refl

    pub post-RefusesOrCalls :
        RefusesOrCalls (post r p env upstream meanwhile request random_uuid now later before)
    unfolding post
    post-RefusesOrCalls = after_check-RefusesOrCalls (validate_json_post p env request) refl

-- `post_lsp_session` either answers with a status of 400 or more and calls nobody, or it makes one
-- call, to the LSP service, and then the request is a JSON POST from the site itself, its visitor
-- has an identity, both rounds of rate limits allow it, whatever other requests do to the store
-- between the two, and the call carries the files as which the validator takes the body, which are
-- safe, for that visitor and that IP address.
pub post_lsp_session-RefusesOrCalls :
    (p : Platform) (env : Env) (upstream : Call → Option Answer) (meanwhile : Limiter → Limiter)
    (request : Request) (random_uuid : Text) (now later : ℕ) (before : Limiter)
    → RefusesOrCalls lsp_route p env upstream meanwhile AreSafe request random_uuid now later before
        (post_lsp_session p env upstream meanwhile request random_uuid now later before)
unfolding lsp_route
post_lsp_session-RefusesOrCalls p env upstream meanwhile request random_uuid now later before =
    post-RefusesOrCalls lsp_route p env upstream meanwhile AreSafe request random_uuid now later
      before validate_lsp_session_request-AreSafe (λ reason. omega arith)

-- `post_execution` either answers with a status of 400 or more and calls nobody, or it makes one
-- call, to the executor, and then the request is a JSON POST from the site itself, its visitor has
-- an identity, both rounds of rate limits allow it, whatever other requests do to the store between
-- the two, and the call carries the files and the terminal size as which the validator takes the
-- body, which are safe and within the limits, for that visitor and that IP address.
pub post_execution-RefusesOrCalls :
    (p : Platform) (env : Env) (upstream : Call → Option Answer) (meanwhile : Limiter → Limiter)
    (request : Request) (random_uuid : Text) (now later : ℕ) (before : Limiter)
    → RefusesOrCalls execution_route p env upstream meanwhile IsSafeRequest request random_uuid now
        later before
        (post_execution p env upstream meanwhile request random_uuid now later before)
unfolding execution_route
post_execution-RefusesOrCalls p env upstream meanwhile request random_uuid now later before =
    post-RefusesOrCalls execution_route p env upstream meanwhile IsSafeRequest request random_uuid
      now later before validate_execution_request-IsSafeRequest (λ reason. ground arith)
