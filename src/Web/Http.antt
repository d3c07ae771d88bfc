-- ===== src/Web/Http.antt =====
-- apps/web/lib/server/http.ts: the checks of a request and the reading of its body.

pub mod Refusals
pub mod Bodies
use smart_c_playground.Prelude.{
  ℕ, ◌+◌, ◌*◌, ◌≡◌, Bool, true, false, not, ◌&&◌, ◌||◌, Option, none, some, List, [], ◌∷◌, ◌++◌,
  map, String, ltb, leb, ◌==◌, if◌then◌else◌, length, take,
}
use smart_c_playground.Text.{Text, codes, text_eq, starts_with, before_unit, trim}
use smart_c_playground.Text.Decimal.{decimal}
use smart_c_playground.Json.{Json}
use smart_c_playground.Contracts.{to_lower_case}
use smart_c_playground.Web.{
  Stream, done, failed, chunk, Request, problem, Response, Env, Platform, or_else,
}

abbrev pub max_request_bytes : ℕ
max_request_bytes = 512 * 1024

abbrev header_of : Option ℕ → Option Text
header_of none = none
header_of (some n) = some (decimal n)

unfoldable pub problem_response :
    (status : ℕ)
    → (title : String) → (detail : Option String) → (retry_after_seconds : Option ℕ) → Response
problem_response status title detail retry_after_seconds = record {
  status = status;
  body = problem title detail retry_after_seconds;
  retry_after = header_of retry_after_seconds;
  cookies = [];
}

abbrev pub or_unknown : Text → Text
or_unknown [] = codes "unknown"
or_unknown (u ∷ text) = u ∷ text

-- getClientIp
unfoldable pub get_client_ip : Option Text → Text
get_client_ip none = codes "unknown"
get_client_ip (some forwarded) = or_unknown (take 128 (trim (before_unit forwarded 44)))

pub too_large : Response
unfolding problem_response
too_large = problem_response 413 "リクエストが大きすぎます" (some "C言語ソースは64KiB以内にしてください。") none

-- The origin that WEB_ORIGIN names.
unfoldable pub expected_origin : Env → Text
expected_origin env = or_else env.web_origin (codes "http://localhost:8080")

pub check_url : Env → (origin : Text) → Option Text → Option Response
unfolding problem_response expected_origin
check_url env origin none = some (problem_response 403 "送信元が不正です" none none)
check_url env origin (some url_origin) =
    if not (text_eq url_origin origin) || not (text_eq origin (expected_origin env))
    then some (problem_response 403 "異なる送信元からの操作は許可されていません" none none)
    else none

pub check_origin : Platform → Env → Option Text → Option Response
unfolding problem_response check_url
check_origin p env none =
    some (problem_response 403 "送信元を確認できません" (some "ブラウザから同一オリジンでアクセスしてください。") none)
check_origin p env (some origin) = check_url env origin (p.origin_of origin)

-- contentType.toLowerCase().startsWith("application/json"), for a header: its units are bytes.
unfoldable pub is_json : Option Text → Bool
is_json content_type =
    starts_with (to_lower_case (or_else content_type [])) (codes "application/json")

-- Number(null) is 0.
unfoldable pub is_announced_too_large : Option ℕ → Bool
is_announced_too_large content_length = ltb max_request_bytes (or_else content_length 0)

-- validateJsonPost, where `none` is null: the request passes.
pub validate_json_post : Platform → Env → Request → Option Response
unfolding check_origin too_large problem_response
validate_json_post p env request =
    if not (is_json request.content_type)
    then some
        (problem_response 415 "JSON形式で送信してください" (some "Content-Typeにはapplication/jsonが必要です。") none)
    else if is_announced_too_large request.content_length
    then some too_large
    else check_origin p env request.origin

pub data Reading : Type 0 where
  read : (text : Text) → Reading
  exceeded : Reading
  broken : Reading

-- The loop of readJsonBody, with the bytes counted, the decoder and the text so far; and the last call of
-- the decoder.
unfoldable pub read_chunks :
    (p : Platform) → Stream → (byte_length : ℕ) → (decoder : p.Decoder) → (text : Text) → Reading
read_chunks p done byte_length decoder text = read (text ++ p.decode_rest decoder)
read_chunks p failed byte_length decoder text = broken
read_chunks p (chunk value rest) byte_length decoder text =
    let (more, next) = p.decode_streamed decoder value in
    let further = read_chunks p rest (byte_length + length value) next (text ++ more) in
    if ltb max_request_bytes (byte_length + length value) then exceeded else further

-- A body that is read, or the response that refuses it.
pub data BodyResult : Type 0 where
  body : Json → BodyResult
  refused : Response → BodyResult

pub unreadable : Response
unfolding problem_response
unreadable = problem_response 400 "JSONを解析できません" (some "リクエスト本文の形式を確認してください。") none

abbrev pub parsed : Option Json → BodyResult
parsed none = refused unreadable
parsed (some value) = body value

pub body_of : Platform → (cancel_fails : Bool) → Reading → BodyResult
unfolding unreadable too_large
body_of p cancel_fails (read text) = parsed (p.parse_text text)
body_of p cancel_fails exceeded = refused (if cancel_fails then unreadable else too_large)
body_of p cancel_fails broken = refused unreadable

pub read_stream : Platform → (cancel_fails : Bool) → Option Stream → BodyResult
unfolding problem_response read_chunks body_of
read_stream p cancel_fails none = refused (problem_response 400 "リクエスト本文がありません" none none)
read_stream p cancel_fails (some stream) =
    body_of p cancel_fails (read_chunks p stream 0 p.new_decoder [])

-- readJsonBody
abbrev pub read_json_body : Platform → Request → BodyResult
read_json_body p request = read_stream p request.cancel_fails request.body
