-- ===== src/Guard/Uris/Sound.antt =====
-- What a message holds when hasUnexpectedUri lets it through.
use smart_c_playground.Prelude.{
  ℕ, zero, suc, ◌≡◌, inl, inr, true, false, some, List, [], ◌∷◌, arith, Bool-cases, Option-cases,
  All, subst, sym,
}
use mathlib.Core.Bool.{true≢false}
use mathlib.Core.Option.{some_inj}
use smart_c_playground.Text.{Text, text_eq_iff}
use smart_c_playground.Json.{
  Json, null, bool, num, str, arr, obj, Items, nil, cons, Fields, end, field, items,
}
use smart_c_playground.Guard.Uris.{
  Entry, is_unexpected, push_items, push_container, visit_fields, visit, round, scan,
  has_unexpected_uri, max_json_nodes,
}
use smart_c_playground.Guard.Uris.Clean.{IsExpected, IsClean, AreCleanItems, AreCleanFields}

module _ (uris : List Text) (workspace : Text) where
  abbrev AreClean : List Entry → Type 0
  AreClean = All (λ e. IsClean uris workspace e.value)

  is_unexpected-IsExpected :
      (k : Text) (v : Json)
      → is_unexpected uris workspace k v ≡ false
      → IsExpected uris workspace k v
  unfolding is_unexpected
  is_unexpected-IsExpected k (str s) h = ground (arith, text_eq_iff s workspace)
  is_unexpected-IsExpected k null h = tt
  is_unexpected-IsExpected k (bool b) h = tt
  is_unexpected-IsExpected k (num n) h = tt
  is_unexpected-IsExpected k (arr vs) h = tt
  is_unexpected-IsExpected k (obj fs) h = tt

  push_items-AreClean :
      (depth : ℕ) (vs : Items) (pending : List Entry)
      → AreClean (push_items depth (items vs) pending)
      → AreCleanItems uris workspace vs × AreClean pending
  push_items-AreClean depth nil pending h = (tt, h)
  push_items-AreClean depth (cons v vs) pending h =
      let (cs, p) = push_items-AreClean depth vs _ h in ((p.0, cs), p.1)

  push_container-AreClean :
      (depth : ℕ) (v : Json) (pending : List Entry)
      → AreClean (push_container depth v pending)
      → IsClean uris workspace v × AreClean pending
  push_container-AreClean depth null pending h = (tt, h)
  push_container-AreClean depth (bool b) pending h = (tt, h)
  push_container-AreClean depth (num n) pending h = (tt, h)
  push_container-AreClean depth (str s) pending h = (tt, h)
  push_container-AreClean depth (arr vs) pending h = h
  push_container-AreClean depth (obj fs) pending h = h

  visit_fields-AreClean :
      (depth : ℕ) (fs : Fields) (pending next : List Entry)
      → visit_fields uris workspace depth fs pending ≡ some next
      → AreClean next
      → AreCleanFields uris workspace fs × AreClean pending
  unfolding visit_fields
  visit_fields-AreClean depth end pending next e h = ground arith
  visit_fields-AreClean depth (field k v rest) pending next e h =
      elim (Bool-cases (is_unexpected uris workspace k v)) [
        | inl bad ↦ absurd (stopped bad)
        | inr good ↦
            let (fields, rest_clean) =
              visit_fields-AreClean depth rest (push_container depth v pending) next (rw good at e)
                h in
            let (value, p) = push_container-AreClean depth v pending rest_clean in
            ((is_unexpected-IsExpected k v good, value, fields), p)
      ]
    where
      stopped : is_unexpected uris workspace k v ≡ true → ⊥
      stopped bad = cc (rw bad at e)

  visit-AreClean :
      (depth : ℕ) (v : Json) (pending next : List Entry)
      → visit uris workspace depth v pending ≡ some next
      → AreClean next
      → IsClean uris workspace v × AreClean pending
  unfolding visit
  visit-AreClean depth (arr vs) pending next e h =
      push_items-AreClean depth vs pending (subst AreClean (sym (some_inj.0 e)) h)
  visit-AreClean depth (obj fs) pending next e h = visit_fields-AreClean depth fs pending next e h
  visit-AreClean depth null pending next e h = (tt, subst AreClean (sym (some_inj.0 e)) h)
  visit-AreClean depth (bool b) pending next e h = (tt, subst AreClean (sym (some_inj.0 e)) h)
  visit-AreClean depth (num n) pending next e h = (tt, subst AreClean (sym (some_inj.0 e)) h)
  visit-AreClean depth (str s) pending next e h = (tt, subst AreClean (sym (some_inj.0 e)) h)

  round-AreClean :
      (e : Entry) (pending next : List Entry)
      → round uris workspace e pending ≡ some next
      → AreClean next
      → IsClean uris workspace e.value × AreClean pending
  unfolding round
  round-AreClean e pending next r h = visit-AreClean e.depth e.value pending next (ground arith) h

  scan-AreClean :
      (left : ℕ) (pending : List Entry)
      → scan uris workspace left pending ≡ false
      → AreClean pending
  unfolding scan
  scan-AreClean zero [] h = tt
  scan-AreClean zero (e ∷ pending) h = absurd (true≢false h)
  scan-AreClean (suc left) [] h = tt
  scan-AreClean (suc left) (e ∷ pending) h = elim (Option-cases (round uris workspace e pending)) [
    | inl r ↦ absurd (true≢false (rw (r, scan) at h))
    | inr (next, r) ↦
        let (v, p) =
          round-AreClean e pending next r (scan-AreClean left next (rw (r, scan) at h)) in
        (v, p)
  ]

  -- If `has_unexpected_uri` does not find anything in an object, then every string under one of the
  -- four URI names, at any depth of the object, is the workspace URI or a document URI.
  pub has_unexpected_uri-IsClean :
      (fs : Fields) → has_unexpected_uri uris workspace fs ≡ false → IsClean uris workspace (obj fs)
  has_unexpected_uri-IsClean fs h =
      let entry : Entry = record { depth = 0; value = obj fs } in
      let e : scan uris workspace max_json_nodes (entry ∷ []) ≡ false =
        unfold has_unexpected_uri in h in
      (scan-AreClean max_json_nodes (entry ∷ []) e).0
