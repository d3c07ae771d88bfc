-- ===== src/Guard/Session/Updates.antt =====
-- What a message of the browser does to the documents: the update that it hands on and the versions.
use smart_c_playground.Prelude.{
  subst, sym, ℕ, ◌+◌, ◌-◌, ◌≤◌, ◌≡◌, ◌⊎◌, ◌∙◌, ap, refl, inl, inr, Bool, true, false, none, some,
  arith, Bool-cases, none≢some,
}
use mathlib.Core.Option.{some_inj}
use smart_c_playground.Text.{Text, text_eq, text_eq_iff, byte_length}
use smart_c_playground.Map.{Map, get, Distinct, get-set, get-delete}
use smart_c_playground.Guard.State.{Verdict, accepted, Config, Document, Update, Guard}
use smart_c_playground.Guard.Documents.Steps.{
  DocumentStep, refuses, keeps, opens, changes, saves, closes, put_document,
}
use smart_c_playground.Guard.Session.{validate_client_message, take_document_update}
use smart_c_playground.Guard.Session.Steps.{
  MessageStep, stops, passes, initializes, is_initialized, shuts_down, edits,
}
use smart_c_playground.Guard.Session.Invariant.{IsValid}
use smart_c_playground.Guard.Session.Effects.{by_step}

-- What the documents are after a message, seen from one URI: as they were, or closed with no update
-- pending, or with the text of the pending update, at a version that did not fall.
abbrev pub FollowsUpdate : Map Document → Guard × Verdict → Text → Type 0
FollowsUpdate old r uri =
    (get r.0.documents uri ≡ get old uri)
    ⊎ ((get r.0.documents uri ≡ none) × (r.0.pending_document_update ≡ none))
    ⊎ ((u : Update) × (d : Document) × (r.1 ≡ accepted)
        × (r.0.pending_document_update ≡ some u)
        × (u.uri ≡ uri)
        × (get r.0.documents uri ≡ some d)
        × (d.text ≡ u.text)
        × ((before : Document) → get old uri ≡ some before → before.version ≤ d.version))

module _ (o : Config) where
  put-FollowsUpdate :
      (g : Guard) (put_uri uri text : Text) (version total : ℕ) (notify : Bool)
      → ((before : Document) → get g.documents put_uri ≡ some before → before.version ≤ version)
      → FollowsUpdate g.documents (put_document g put_uri text version total notify, accepted) uri
  put-FollowsUpdate g put_uri uri text version total notify rises =
      let d : Document = record { text = text; version = version; bytes = byte_length text } in
      let u : Update = record { uri = put_uri; text = text; notify_dependents = notify } in
      elim (Bool-cases (text_eq put_uri uri)) [
        | inl e ↦
            let same = (text_eq_iff put_uri uri).0 e in
            inr (
              inr (
                u,
                d,
                refl,
                refl,
                same,
                rw (get-set g.documents put_uri uri d, e),
                refl,
                λ before b.
                    rises before (subst (λ k. get g.documents k ≡ some before) (sym same) b),
              ))
        | inr e ↦ inl (rw (get-set g.documents put_uri uri d, e))
      ]

  edits-FollowsUpdate :
      (g : Guard) {r : Guard × Verdict}
      → DocumentStep o g r
      → (uri : Text) → Distinct g.documents
      → g.pending_document_update ≡ none
      → FollowsUpdate g.documents r uri
  edits-FollowsUpdate g (refuses reason) uri d n = inl refl
  edits-FollowsUpdate g keeps uri d n = inl refl
  edits-FollowsUpdate g (opens u text version a c s f) uri d n =
      put-FollowsUpdate g u uri text version (g.document_bytes + byte_length text) false
        (λ before b. absurd (none≢some (sym c ∙ b)))
  edits-FollowsUpdate g (changes u text version document made e newer a s f) uri d n =
      put-FollowsUpdate g u uri text version (g.document_bytes - document.bytes + byte_length text)
        true
        (λ before b.
          let same : document ≡ before = some_inj.0 (sym e ∙ b) in
          subst (λ (x : Document). x.version ≤ version) same (omega arith))
  edits-FollowsUpdate g (saves u text document e s f) uri d n =
      put-FollowsUpdate g u uri text document.version
        (g.document_bytes - document.bytes + byte_length text) true
        (λ before b.
          let same : document ≡ before = some_inj.0 (sym e ∙ b) in
          subst (λ (x : Document). x.version ≤ document.version) same (omega arith))
  edits-FollowsUpdate g (closes u document e) uri d n = elim (Bool-cases (text_eq u uri)) [
    | inl h ↦ inr (inl (rw (get-delete g.documents u uri d, h), n))
    | inr h ↦ inl (rw (get-delete g.documents u uri d, h))
  ]

  step-FollowsUpdate :
      (g : Guard) {r : Guard × Verdict}
      → MessageStep o g r
      → (uri : Text) → Distinct g.documents
      → g.pending_document_update ≡ none
      → FollowsUpdate g.documents r uri
  step-FollowsUpdate g (stops _) uri d n = inl refl
  step-FollowsUpdate g passes uri d n = inl refl
  step-FollowsUpdate g (initializes _) uri d n = inl refl
  step-FollowsUpdate g (is_initialized _ _) uri d n = inl refl
  step-FollowsUpdate g (shuts_down _ _) uri d n = inl refl
  step-FollowsUpdate g (edits _ _ made) uri d n = edits-FollowsUpdate g made uri d n

  -- From a valid guard, after any content from the browser, the document at any URI is as it was;
  -- or it is closed and no update is pending; or the content was accepted, the document has the
  -- text of the pending update, which is for its URI, and its version has not fallen.
  pub documents-FollowsUpdate :
      (g : Guard) (now : ℕ) (content uri : Text)
      → IsValid o g
      → FollowsUpdate g.documents (validate_client_message o g now content) uri
  documents-FollowsUpdate g now content uri v =
      by_step o g now content (λ r. FollowsUpdate g.documents r uri)
        (λ h _ _ u. inl (ap (λ m. get m uri) u.same_documents))
        (λ h r u step.
          subst (λ m. FollowsUpdate m r uri) u.same_documents
            (step-FollowsUpdate h step uri
              (subst Distinct (sym u.same_documents) v.documents_valid.distinct) u.nothing_pending))

-- The update is handed on once.
take_twice : (g : Guard) → (take_document_update (take_document_update g).0).1 ≡ none
unfolding take_document_update
take_twice g = refl
