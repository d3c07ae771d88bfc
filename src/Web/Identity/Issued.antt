-- ===== src/Web/Identity/Issued.antt =====
-- The cookies of apps/web/lib/server/identity.ts: which are accepted, and that an issued one is.
use smart_c_playground.Prelude.{
  ℕ, suc, ◌≡◌, refl, subst, ap, ◌∙◌, inl, inr, Bool, true, false, Option, none, some, ◌∷◌, ◌++◌,
  arith, leb, if◌then◌else◌, length, take, drop, Bool-cases, >>=-eq-some, none≢some,
}
use mathlib.Core.Option.{some_inj}
use smart_c_playground.Text.{Text, text_eq, text_eq_iff, text_eq_refl, includes, last_index_of}
use smart_c_playground.Text.Search.{
  last_index_of-split, last_index_of-append, take-length, drop-length,
}
use smart_c_playground.Text.Utf8.{utf8}
use smart_c_playground.Web.{Env, Platform}
use smart_c_playground.Web.Identity.{
  VisitorIdentity, dot, get_visitor_secret, is_visitor_id, cut_of, sign_visitor_id,
  compare_signature, check_cut, verify_visitor_cookie, new_identity, identity_of,
  get_visitor_identity,
}

module _ (p : Platform) (env : Env) where
  -- The cookie is an id and, after a dot, a signature of it: one with the bytes of the signature that
  -- the server gives.
  pub data IsSigned (value id : Text) : Type 0 where
    signed :
        (signature expected : Text)
        → is_visitor_id id ≡ true
        → value ≡ id ++ dot ∷ signature
        → sign_visitor_id p env id ≡ some expected
        → utf8 expected ≡ utf8 signature
        → IsSigned value id

  cut_of-split :
      (value : Text) (cut : ℕ)
      → cut_of value ≡ some cut
      → value ≡ take cut value ++ dot ∷ drop (suc cut) value
  unfolding cut_of
  cut_of-split value cut e =
      let (i, f, g) = >>=-eq-some (last_index_of value dot) _ e in
      elim (Bool-cases (leb i 0)) [
        | inl zero_index ↦ absurd (none≢some (rw zero_index at g))
        | inr later ↦
            subst (λ k. value ≡ take k value ++ dot ∷ drop (suc k) value)
              (some_inj.0 (rw later at g)) (last_index_of-split value dot i f)
      ]

  compare-facts :
      (visitor_id signature id : Text) (expected : Option Text)
      → compare_signature p env visitor_id signature expected ≡ some (some id)
      → (e : Text) × (expected ≡ some e) × (visitor_id ≡ id) × (utf8 e ≡ utf8 signature)
  unfolding compare_signature
  compare-facts visitor_id signature id none h = absurd (none≢some h)
  compare-facts visitor_id signature id (some expected) h =
      elim (Bool-cases (text_eq (utf8 expected) (utf8 signature))) [
        | inl same ↦ (
          expected,
          refl,
          some_inj.0 (some_inj.0 (rw same at h)),
          (text_eq_iff (utf8 expected) (utf8 signature)).0 same,
        )
        | inr other ↦ absurd (none≢some (some_inj.0 (rw other at h)))
      ]

  check_cut-IsSigned :
      (value id : Text) (cut : Option ℕ)
      → cut_of value ≡ cut
      → check_cut p env value cut ≡ some (some id)
      → IsSigned value id
  unfolding check_cut
  check_cut-IsSigned value id none e h = absurd (none≢some (some_inj.0 h))
  check_cut-IsSigned value id (some cut) e h = elim (Bool-cases (is_visitor_id (take cut value))) [
    | inr other ↦ absurd (none≢some (some_inj.0 (rw other at h)))
    | inl valid ↦
        let (expected, s, same, bytes) =
          compare-facts (take cut value) (drop (suc cut) value) id
            (sign_visitor_id p env (take cut value)) (rw valid at h) in
        signed (drop (suc cut) value) expected (subst (λ t. is_visitor_id t ≡ true) same valid)
          (cut_of-split value cut e ∙ ap (λ (t : Text). t ++ dot ∷ drop (suc cut) value) same)
          (subst (λ t. sign_visitor_id p env t ≡ some expected) same s) bytes
  ]

  -- If `verify_visitor_cookie` gives an ID, that has the right form and the cookie is the ID, a dot
  -- and a signature whose bytes are those of the ID's signature.
  pub verify_visitor_cookie-IsSigned :
      (value id : Text) → verify_visitor_cookie p env value ≡ some (some id) → IsSigned value id
  unfolding verify_visitor_cookie
  verify_visitor_cookie-IsSigned value id h = check_cut-IsSigned value id (cut_of value) refl h

  cut_of-issued :
      (id signature : Text)
      → length id ≡ 36
      → includes signature dot ≡ false
      → cut_of (id ++ dot ∷ signature) ≡ some (length id)
  unfolding cut_of
  cut_of-issued id signature n h =
      rw (last_index_of-append id signature dot h) (if_none (leb (length id) 0) (ground (arith, n)))
    where
      if_none : (b : Bool) → b ≡ false → (if b then none else some (length id)) ≡ some (length id)
      if_none b e = rw e refl

  verify-issued :
      (id signature : Text)
      → is_visitor_id id ≡ true
      → sign_visitor_id p env id ≡ some signature
      → includes signature dot ≡ false
      → verify_visitor_cookie p env (id ++ dot ∷ signature) ≡ some (some id)
  unfolding verify_visitor_cookie check_cut compare_signature is_visitor_id
  verify-issued id signature v s h = rw (cut_of-issued id signature (ground (arith, v)) h) (
      rw
        (
          take-length id (dot ∷ signature),
          drop-length id signature dot,
          v,
          s,
          text_eq_refl (utf8 signature),
        )
        refl)

  -- The identity that a visitor has who comes with the cookie of another one.
  abbrev Again : VisitorIdentity → Type 0
  Again identity =
      (other_uuid : Text)
      → get_visitor_identity p env (some identity.cookie_value) other_uuid
        ≡ some (record {
          id = identity.id;
          cookie_value = identity.cookie_value;
          should_set_cookie = false;
        })

  Again-of_verified :
      (identity : VisitorIdentity)
      → verify_visitor_cookie p env identity.cookie_value ≡ some (some identity.id)
      → Again identity
  unfolding get_visitor_identity identity_of
  Again-of_verified identity e other_uuid = rw e refl

  module _ (dotless : (secret id : Text) → includes (p.sign secret id) dot ≡ false) where
    sign-dotless :
        (id signature : Text)
        → sign_visitor_id p env id ≡ some signature
        → includes signature dot ≡ false
    unfolding sign_visitor_id
    sign-dotless id signature h =
        let (secret, e, f) = >>=-eq-some (get_visitor_secret env) _ h in
        subst (λ t. includes t dot ≡ false) (some_inj.0 f) (dotless secret id)

    new_identity-Again :
        (random_uuid : Text) (identity : VisitorIdentity)
        → is_visitor_id random_uuid ≡ true
        → new_identity p env random_uuid ≡ some identity
        → Again identity
    unfolding new_identity
    new_identity-Again random_uuid identity v h =
        let (signature, e, f) = >>=-eq-some (sign_visitor_id p env random_uuid) _ h in
        let made : VisitorIdentity = record {
          id = random_uuid;
          cookie_value = random_uuid ++ dot ∷ signature;
          should_set_cookie = true;
        } in
        subst Again (some_inj.0 f) (
          Again-of_verified made
            (verify-issued random_uuid signature v e (sign-dotless random_uuid signature e)))

    identity_of-Again :
        (cookie random_uuid : Text) (verified : Option (Option Text)) (identity : VisitorIdentity)
        → is_visitor_id random_uuid ≡ true
        → verify_visitor_cookie p env cookie ≡ verified
        → identity_of p env cookie random_uuid verified ≡ some identity
        → Again identity
    unfolding identity_of
    identity_of-Again cookie random_uuid none identity v e h = absurd (none≢some h)
    identity_of-Again cookie random_uuid (some none) identity v e h =
        new_identity-Again random_uuid identity v h
    identity_of-Again cookie random_uuid (some (some id)) identity v e h =
        let found : VisitorIdentity = record {
          id = id;
          cookie_value = cookie;
          should_set_cookie = false;
        } in
        subst Again (some_inj.0 h) (Again-of_verified found e)

    -- If signatures have no dot and the random ID has the right form, then the cookie of an
    -- identity that `get_visitor_identity` gives, known or new, gives the same identity again, with
    -- no cookie to be set.
    pub get_visitor_identity_again :
        (cookie : Option Text) (random_uuid other_uuid : Text) (identity : VisitorIdentity)
        → is_visitor_id random_uuid ≡ true
        → get_visitor_identity p env cookie random_uuid ≡ some identity
        → get_visitor_identity p env (some identity.cookie_value) other_uuid
          ≡ some (record {
            id = identity.id;
            cookie_value = identity.cookie_value;
            should_set_cookie = false;
          })
    unfolding get_visitor_identity
    get_visitor_identity_again none random_uuid other_uuid identity v h =
        new_identity-Again random_uuid identity v h other_uuid
    get_visitor_identity_again (some cookie) random_uuid other_uuid identity v h =
        identity_of-Again cookie random_uuid (verify_visitor_cookie p env cookie) identity v refl h
          other_uuid
