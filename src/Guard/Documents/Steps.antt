-- ===== src/Guard/Documents/Steps.antt =====
-- What the handlers of open documents may do, as a step relation, and that they do no more.
use smart_c_playground.Prelude.{
  ℕ, ◌+◌, ◌-◌, ◌≤◌, ◌<◌, ◌≡◌, ◌≢◌, inl, inr, Bool, true, false, not, ◌&&◌, ◌||◌, Option, none, some,
  List, [], ◌∷◌, String, arith, ltb, leb, ◌==◌, if◌then◌else◌, ◌>>=◌, >>=-eq-some, is_some, length,
  Option-cases, Bool-cases,
}
use smart_c_playground.Text.{Text, has, byte_length}
use smart_c_playground.Json.{Json, Fields, as_object, as_array, as_string, as_safe_natural, prop}
use smart_c_playground.Map.{get, set, delete}
use smart_c_playground.Guard.Change.{is_safe_document_text, apply_document_changes}
use smart_c_playground.Guard.Change.Safe.{
  IsSafe, is_safe_document_text-IsSafe, apply_document_changes-IsSafe_nonempty,
}
use smart_c_playground.Guard.State.{Verdict, accepted, policy_violation, Config, Document, Guard}
use smart_c_playground.Guard.Methods.{text_document}
use smart_c_playground.Guard.Documents.{
  opened, open_document, validate_did_open, replace_document, change_request, change_document,
  validate_did_change, uri_of, validate_did_close, save_document, validate_did_save,
  max_content_changes,
}

-- The guard after a document has got a text.
abbrev pub put_document : Guard → Text → Text → ℕ → ℕ → Bool → Guard
put_document g uri text version total notify = record g {
  documents =
      set g.documents uri (record { text = text; version = version; bytes = byte_length text });
  document_bytes = total;
  pending_document_update = some (record { uri = uri; text = text; notify_dependents = notify });
}

module _ (o : Config) (g : Guard) where
  pub data DocumentStep : Guard × Verdict → Type 0 where
    refuses : (reason : String) → DocumentStep (g, policy_violation reason)
    keeps : DocumentStep (g, accepted)
    opens :
        (uri text : Text) (version : ℕ)
        → has o.document_uris uri ≡ true
        → get g.documents uri ≡ none
        → IsSafe o.max_document_bytes text
        → g.document_bytes + byte_length text ≤ o.max_document_bytes
        → DocumentStep
            (put_document g uri text version (g.document_bytes + byte_length text) false, accepted)
    changes :
        (uri text : Text) (version : ℕ) (document : Document) (edits : List Json)
        → get g.documents uri ≡ some document
        → document.version < version
        → apply_document_changes document.text edits o.max_document_bytes ≡ some text
        → IsSafe o.max_document_bytes text
        → g.document_bytes - document.bytes + byte_length text ≤ o.max_document_bytes
        → DocumentStep (
          put_document g uri text version
              (g.document_bytes - document.bytes + byte_length text)
              true,
          accepted,
        )
    saves :
        (uri text : Text) (document : Document)
        → get g.documents uri ≡ some document
        → IsSafe o.max_document_bytes text
        → g.document_bytes - document.bytes + byte_length text ≤ o.max_document_bytes
        → DocumentStep (
          put_document g uri text document.version
              (g.document_bytes - document.bytes + byte_length text)
              true,
          accepted,
        )
    closes :
        (uri : Text) (document : Document)
        → get g.documents uri ≡ some document
        → DocumentStep (
          record g {
            documents = delete g.documents uri;
            document_bytes = g.document_bytes - document.bytes;
          },
          accepted,
        )

  checked-facts :
      (u t : Text) (v : ℕ) (uri text : Text) (version : ℕ)
      → if◌then◌else◌ {A = Option (Text × Text × ℕ)}
          (has o.document_uris u
            && not (is_some (get g.documents u))
            && is_safe_document_text t o.max_document_bytes)
          (some (u, t, v))
          none
        ≡ some (uri, text, version)
      → (has o.document_uris uri ≡ true)
        × (get g.documents uri ≡ none)
        × IsSafe o.max_document_bytes text
  checked-facts u t v uri text version e = (
    ground arith,
    ground arith,
    is_safe_document_text-IsSafe text o.max_document_bytes (ground arith),
  )

  opened-facts :
      (document : Fields) (uri text : Text) (version : ℕ)
      → opened o g document ≡ some (uri, text, version)
      → (has o.document_uris uri ≡ true)
        × (get g.documents uri ≡ none)
        × IsSafe o.max_document_bytes text
  unfolding opened
  opened-facts document uri text version e =
      let (u, _, e₁) = >>=-eq-some (as_string (prop document "uri")) _ e in
      let (t, _, e₂) = >>=-eq-some (as_string (prop document "text")) _ e₁ in
      let (v, _, e₃) = >>=-eq-some (as_safe_natural (prop document "version")) _ e₂ in
      checked-facts u t v uri text version e₃

  open_document-step :
      (uri text : Text) (version : ℕ)
      → has o.document_uris uri ≡ true
      → get g.documents uri ≡ none
      → IsSafe o.max_document_bytes text
      → DocumentStep (open_document o g uri text version)
  unfolding open_document
  open_document-step uri text version a n s =
      elim (Bool-cases (ltb o.max_document_bytes (g.document_bytes + byte_length text))) [
        | inl big ↦ rw big (refuses _)
        | inr fits ↦ rw fits (opens uri text version a n s (ground arith))
      ]

  -- A didOpen opens a document of the session that was not open, or changes nothing.
  pub validate_did_open-step : (params : Option Json) → DocumentStep (validate_did_open o g params)
  unfolding validate_did_open
  validate_did_open-step params = elim (Option-cases (text_document params)) [
    | inl e ↦ rw (e, validate_did_open) (refuses _)
    | inr (document, e) ↦ elim (Option-cases (opened o g document)) [
      | inl f ↦ rw (e, validate_did_open, f) (refuses _)
      | inr ((uri, text, version), f) ↦
          let (a, n, s) = opened-facts document uri text version f in
          rw (e, validate_did_open, f) (open_document-step uri text version a n s)
    ]
  ]

  change_document-step :
      (uri : Text) (version : ℕ) (edits : List Json) (document : Document)
      → edits ≢ []
      → get g.documents uri ≡ some document
      → DocumentStep (change_document o g uri version edits document)
  unfolding change_document
  change_document-step uri version edits document n d =
      elim (Bool-cases (leb version document.version)) [
        | inl old ↦ rw old (refuses _)
        | inr new ↦
            elim (Option-cases (apply_document_changes document.text edits o.max_document_bytes)) [
              | inl e ↦ rw (new, e, change_document) (refuses _)
              | inr (text, e) ↦ rw (new, e, change_document) (replaced text new e)
            ]
      ]
    where
      replaced :
          (text : Text)
          → leb version document.version ≡ false
          → apply_document_changes document.text edits o.max_document_bytes ≡ some text
          → DocumentStep (replace_document o g uri document text version)
      replaced text new e =
          elim (Bool-cases
            (ltb o.max_document_bytes (g.document_bytes - document.bytes + byte_length text))) [
              | inl big ↦ rw (big, replace_document) (refuses _)
              | inr fits ↦
                  rw (fits, replace_document)
                    (changes uri text version document edits d (ground arith) e
                      (apply_document_changes-IsSafe_nonempty document.text edits _ text n e)
                      (ground arith))
            ]

  change_request-nonempty :
      (params : Option Json) (uri : Text) (version : ℕ) (edits : List Json)
      → change_request params ≡ some (uri, version, edits)
      → edits ≢ []
  unfolding change_request
  change_request-nonempty params uri version edits e =
      let (document, _, e₁) = >>=-eq-some (text_document params) _ e in
      let (u, _, e₂) = >>=-eq-some (as_string (prop document "uri")) _ e₁ in
      let (v, _, e₃) = >>=-eq-some (as_safe_natural (prop document "version")) _ e₂ in
      let (cs, _, e₄) =
        >>=-eq-some (as_array (as_object params >>= λ fields. prop fields "contentChanges")) _ e₃ in
      counted u v cs e₄
    where
      counted :
          (u : Text) (v : ℕ) (cs : List Json)
          → if◌then◌else◌ {A = Option (Text × ℕ × List Json)}
              (length cs == 0 || ltb max_content_changes (length cs))
              none
              (some (u, v, cs))
            ≡ some (uri, version, edits)
          → edits ≢ []
      counted u v [] e q = ground arith
      counted u v (c ∷ cs) e q = ground arith

  -- A didChange edits an open document to a later version, or changes nothing.
  pub validate_did_change-step :
      (params : Option Json) → DocumentStep (validate_did_change o g params)
  unfolding validate_did_change
  validate_did_change-step params = elim (Option-cases (change_request params)) [
    | inl e ↦ rw (e, validate_did_change) (refuses _)
    | inr ((uri, version, edits), e) ↦ elim (Option-cases (get g.documents uri)) [
      | inl f ↦ rw (e, validate_did_change, f) (refuses _)
      | inr (document, f) ↦
          rw (e, validate_did_change, f)
            (change_document-step uri version edits document
              (change_request-nonempty params uri version edits e) f)
    ]
  ]

  -- A didClose closes an open document, or changes nothing.
  pub validate_did_close-step :
      (params : Option Json) → DocumentStep (validate_did_close o g params)
  unfolding validate_did_close
  validate_did_close-step params = elim (Option-cases (uri_of params)) [
    | inl e ↦ rw (e, validate_did_close) (refuses _)
    | inr (uri, e) ↦ elim (Option-cases (get g.documents uri)) [
      | inl f ↦ rw (e, validate_did_close, f) (refuses _)
      | inr (document, f) ↦ rw (e, validate_did_close, f) (closes uri document f)
    ]
  ]

  save_document-step :
      (uri : Text) (document : Document) (raw : Option Json)
      → get g.documents uri ≡ some document
      → DocumentStep (save_document o g uri document raw)
  unfolding save_document
  save_document-step uri document none d = keeps
  save_document-step uri document (some raw) d = elim (Option-cases (as_string (some raw))) [
    | inl e ↦ rw (e, save_document) (refuses _)
    | inr (text, e) ↦ elim (Bool-cases (is_safe_document_text text o.max_document_bytes)) [
      | inl safe ↦ rw (e, save_document, safe) (replaced text safe)
      | inr bad ↦ rw (e, save_document, bad) (refuses _)
    ]
  ]
    where
      replaced :
          (text : Text)
          → is_safe_document_text text o.max_document_bytes ≡ true
          → DocumentStep (replace_document o g uri document text document.version)
      replaced text safe =
          elim (Bool-cases
            (ltb o.max_document_bytes (g.document_bytes - document.bytes + byte_length text))) [
              | inl big ↦ rw (big, replace_document) (refuses _)
              | inr fits ↦
                  rw (fits, replace_document)
                    (saves uri text document d (is_safe_document_text-IsSafe text _ safe)
                      (ground arith))
            ]

  -- A didSave gives an open document the text that it brings, or changes nothing.
  pub validate_did_save-step : (params : Option Json) → DocumentStep (validate_did_save o g params)
  unfolding validate_did_save
  validate_did_save-step params = elim (Option-cases (uri_of params)) [
    | inl e ↦ rw (e, validate_did_save) (refuses _)
    | inr (uri, e) ↦ elim (Option-cases (get g.documents uri)) [
      | inl f ↦ rw (e, validate_did_save, f) (refuses _)
      | inr (document, f) ↦
          rw (e, validate_did_save, f)
            (save_document-step uri document (as_object params >>= λ fields. prop fields "text") f)
    ]
  ]
