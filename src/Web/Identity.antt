-- ===== src/Web/Identity.antt =====
-- apps/web/lib/server/identity.ts: anonymous visitors, whose id a signed cookie carries.

pub mod Issued
use smart_c_playground.Prelude.{
  ℕ, zero, suc, ◌+◌, ◌*◌, Bool, true, false, not, ◌&&◌, ◌||◌, Option, none, some, ◌>>=◌, List, [],
  ◌∷◌, ◌++◌, ltb, leb, ◌==◌, if◌then◌else◌, length, take, drop,
}
use smart_c_playground.Text.{Text, codes, text_eq, last_index_of}
use smart_c_playground.Text.Utf8.{utf8}
use smart_c_playground.Web.{
  Env, Platform, Cookie, Response, or_option, is_production, should_use_secure_cookies,
}

-- VisitorIdentity
pub record VisitorIdentity : Type 0 where
  pub id : Text
  pub cookie_value : Text
  pub should_set_cookie : Bool

abbrev pub visitor_cookie_name : Text
visitor_cookie_name = codes "smart_c_visitor"

abbrev pub dot : ℕ
dot = 46

pub development_secret : Env → Option Text
development_secret env =
    if is_production env then none else some (codes "smart-c-playground-development-secret")

pub secret_of : Env → Option Text → Option Text
unfolding development_secret
secret_of env none = development_secret env
secret_of env (some secret) = if leb 32 (length secret) then some secret else development_secret env

-- getVisitorSecret, where `none` is a throw.
unfoldable pub get_visitor_secret : Env → Option Text
unfolding secret_of
get_visitor_secret env =
    secret_of env (or_option env.visitor_cookie_secret env.session_signing_secret)

-- [0-9a-f-] with the flag i
abbrev pub is_id_unit : ℕ → Bool
is_id_unit u = leb 48 u && leb u 57 || leb 97 u && leb u 102 || leb 65 u && leb u 70 || u == 45

unfoldable pub are_id_units : Text → Bool
are_id_units [] = true
are_id_units (u ∷ text) = is_id_unit u && are_id_units text

-- /^[0-9a-f-]{36}$/i.test(text)
unfoldable pub is_visitor_id : Text → Bool
unfolding are_id_units
is_visitor_id text = length text == 36 && are_id_units text

-- Where the cookie is to be cut: at its last dot, which is not its first unit.
unfoldable pub cut_of : Text → Option ℕ
cut_of value = do
  separator_index ← last_index_of value dot
  if leb separator_index 0 then none else some separator_index

module _ (p : Platform) (env : Env) where
  -- signVisitorId
  unfoldable pub sign_visitor_id : Text → Option Text
  sign_visitor_id visitor_id = do secret ← get_visitor_secret env; some (p.sign secret visitor_id)

  -- The comparison of the buffers.
  unfoldable pub compare_signature :
      (visitor_id signature : Text) → Option Text → Option (Option Text)
  compare_signature visitor_id signature none = none
  compare_signature visitor_id signature (some expected) =
      if text_eq (utf8 expected) (utf8 signature) then some (some visitor_id) else some none

  unfoldable pub check_cut : Text → Option ℕ → Option (Option Text)
  unfolding sign_visitor_id compare_signature
  check_cut value none = some none
  check_cut value (some cut) =
      let visitor_id = take cut value in
      if is_visitor_id visitor_id
      then compare_signature visitor_id (drop (suc cut) value) (sign_visitor_id visitor_id)
      else some none

  -- verifyVisitorCookie. The outer `none` is a throw, the inner one is undefined.
  unfoldable pub verify_visitor_cookie : Text → Option (Option Text)
  unfolding cut_of check_cut
  verify_visitor_cookie value = check_cut value (cut_of value)

  -- A new visitor, for the id that randomUUID gives.
  unfoldable pub new_identity : (random_uuid : Text) → Option VisitorIdentity
  unfolding sign_visitor_id
  new_identity id = do
    signature ← sign_visitor_id id
    some (record { id = id; cookie_value = id ++ dot ∷ signature; should_set_cookie = true })

  unfoldable pub identity_of :
      (cookie random_uuid : Text) → Option (Option Text) → Option VisitorIdentity
  unfolding new_identity
  identity_of cookie random_uuid none = none
  identity_of cookie random_uuid (some none) = new_identity random_uuid
  identity_of cookie random_uuid (some (some id)) =
      some (record { id = id; cookie_value = cookie; should_set_cookie = false })

  -- getVisitorIdentity, where `none` is a throw.
  unfoldable pub get_visitor_identity :
      (cookie : Option Text) → (random_uuid : Text) → Option VisitorIdentity
  unfolding new_identity verify_visitor_cookie identity_of
  get_visitor_identity none random_uuid = new_identity random_uuid
  get_visitor_identity (some cookie) random_uuid =
      identity_of cookie random_uuid (verify_visitor_cookie cookie)

-- applyVisitorCookie
unfoldable pub apply_visitor_cookie : Env → Response → VisitorIdentity → Response
apply_visitor_cookie env response identity =
    if identity.should_set_cookie
    then record response {
      cookies =
          response.cookies
          ++ record {
            name = visitor_cookie_name;
            value = identity.cookie_value;
            max_age = 60 * 60 * 24 * 365;
            path = codes "/";
            http_only = true;
            same_site = codes "strict";
            secure = should_use_secure_cookies env;
          }
            ∷ [];
    }
    else response
