-- ===== src/Web/Http/Refusals.antt =====
-- Which requests apps/web/lib/server/http.ts refuses, and how.
use smart_c_playground.Prelude.{
  ◌≤◌, ◌≡◌, sym, subst, inl, inr, Bool, true, false, not, ◌||◌, Option, none, some, [], arith,
  if_cases, Bool-cases, none≢some,
}
use mathlib.Core.Option.{some_inj}
use smart_c_playground.Text.{Text, text_eq, text_eq_iff}
use smart_c_playground.Json.{Json}
use smart_c_playground.Web.{Stream, Request, Response, Env, Platform}
use smart_c_playground.Web.Http.{
  problem_response, too_large, expected_origin, check_url, check_origin, is_json,
  is_announced_too_large, validate_json_post, Reading, read, exceeded, broken, read_chunks,
  BodyResult, body, refused, unreadable, parsed, body_of, read_stream,
}

-- A refusal has a status of 400 or more.
abbrev pub IsRefusal : Response → Type 0
IsRefusal response = 400 ≤ response.status

abbrev RefusesBy : Option Response → Type 0
RefusesBy result = (response : Response) → result ≡ some response → IsRefusal response

some-RefusesBy : (response : Response) → IsRefusal response → RefusesBy (some response)
some-RefusesBy response h other e = subst IsRefusal (some_inj.0 e) h

none-RefusesBy : RefusesBy none
none-RefusesBy other e = absurd (none≢some e)

check_url-RefusesBy :
    (env : Env) (origin : Text) (url_origin : Option Text)
    → RefusesBy (check_url env origin url_origin)
unfolding check_url problem_response
check_url-RefusesBy env origin none = some-RefusesBy _ (omega arith)
check_url-RefusesBy env origin (some url_origin) =
    if_cases RefusesBy
      (not (text_eq url_origin origin) || not (text_eq origin (expected_origin env)))
      (λ _. some-RefusesBy _ (omega arith)) (λ _. none-RefusesBy)

check_origin-RefusesBy :
    (p : Platform) (env : Env) (origin : Option Text) → RefusesBy (check_origin p env origin)
unfolding check_origin problem_response
check_origin-RefusesBy p env none = some-RefusesBy _ (omega arith)
check_origin-RefusesBy p env (some origin) = check_url-RefusesBy env origin (p.origin_of origin)

pub validate_json_post-RefusesBy :
    (p : Platform) (env : Env) (request : Request) → RefusesBy (validate_json_post p env request)
unfolding validate_json_post problem_response too_large
validate_json_post-RefusesBy p env request =
    if_cases RefusesBy (not (is_json request.content_type)) (λ _. some-RefusesBy _ (omega arith))
      (λ _.
        if_cases RefusesBy (is_announced_too_large request.content_length)
          (λ _. some-RefusesBy _ (omega arith)) (λ _. check_origin-RefusesBy p env request.origin))

-- The request is JSON, announces a body within the limit, and comes from the site itself.
pub record IsSameOriginJson (p : Platform) (env : Env) (request : Request) : Type 0 where
  pub json : is_json request.content_type ≡ true
  pub announced : is_announced_too_large request.content_length ≡ false
  pub origin : request.origin ≡ some (expected_origin env)
  pub url : p.origin_of (expected_origin env) ≡ some (expected_origin env)

check_url-none :
    (env : Env) (origin : Text) (url_origin : Option Text)
    → check_url env origin url_origin ≡ none
    → (origin ≡ expected_origin env) × (url_origin ≡ some (expected_origin env))
unfolding check_url
check_url-none env origin none h = absurd (none≢some (sym h))
check_url-none env origin (some url_origin) h =
    ground (arith, text_eq_iff url_origin origin, text_eq_iff origin (expected_origin env))

check_origin-none :
    (p : Platform) (env : Env) (origin : Option Text)
    → check_origin p env origin ≡ none
    → (origin ≡ some (expected_origin env))
      × (p.origin_of (expected_origin env) ≡ some (expected_origin env))
unfolding check_origin
check_origin-none p env none h = absurd (none≢some (sym h))
check_origin-none p env (some origin) h =
    let (e, f) = check_url-none env origin (p.origin_of origin) h in
    (cc, subst (λ (o : Text). p.origin_of o ≡ some (expected_origin env)) e f)

pub validate_json_post-none :
    (p : Platform) (env : Env) (request : Request)
    → validate_json_post p env request ≡ none
    → IsSameOriginJson p env request
unfolding validate_json_post
validate_json_post-none p env request h = elim (Bool-cases (is_json request.content_type)) [
  | inr e ↦ absurd (none≢some (sym (rw e at h)))
  | inl e ↦ elim (Bool-cases (is_announced_too_large request.content_length)) [
    | inl f ↦ absurd (none≢some (sym (rw (e, f) at h)))
    | inr f ↦
        let (g, u) = check_origin-none p env request.origin (rw (e, f) at h) in
        record { json = e; announced = f; origin = g; url = u }
  ]
]

abbrev pub RefusesBody : BodyResult → Type 0
RefusesBody (body content) = Unit
RefusesBody (refused response) = IsRefusal response

parsed-RefusesBody : (value : Option Json) → RefusesBody (parsed value)
unfolding unreadable problem_response
parsed-RefusesBody none = omega arith
parsed-RefusesBody (some value) = tt

body_of-RefusesBody :
    (p : Platform) (cancel_fails : Bool) (r : Reading) → RefusesBody (body_of p cancel_fails r)
unfolding body_of unreadable too_large problem_response
body_of-RefusesBody p cancel_fails (read text) = parsed-RefusesBody (p.parse_text text)
body_of-RefusesBody p cancel_fails exceeded =
    if_cases IsRefusal cancel_fails (λ _. omega arith) (λ _. omega arith)
body_of-RefusesBody p cancel_fails broken = omega arith

pub read_stream-RefusesBody :
    (p : Platform) (cancel_fails : Bool) (stream : Option Stream)
    → RefusesBody (read_stream p cancel_fails stream)
unfolding read_stream problem_response
read_stream-RefusesBody p cancel_fails none = omega arith
read_stream-RefusesBody p cancel_fails (some stream) =
    body_of-RefusesBody p cancel_fails (read_chunks p stream 0 p.new_decoder [])
