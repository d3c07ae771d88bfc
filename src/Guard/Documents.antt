-- ===== src/Guard/Documents.antt =====
-- The four handlers of open documents in LspJsonRpcGuard, apps/lsp/src/json-rpc-guard.ts.
-- `none` of a helper stands for a failed condition of the handler that calls it.
pub mod Steps
pub mod Invariant
use smart_c_playground.Prelude.{
  ℕ, ◌+◌, ◌-◌, Bool, true, false, not, ◌&&◌, ◌||◌, Option, none, some, List, [], ◌∷◌, String, ltb,
  leb, ◌==◌, if◌then◌else◌, ◌>>=◌, is_some, length,
}
use smart_c_playground.Text.{Text, has, byte_length}
use smart_c_playground.Json.{Json, Fields, as_object, as_array, as_string, as_safe_natural, prop}
use smart_c_playground.Map.{get, set, delete}
use smart_c_playground.Guard.Change.{is_safe_document_text, apply_document_changes}
use smart_c_playground.Guard.State.{
  Verdict, accepted, policy_violation, Config, Document, Update, Guard,
}
use smart_c_playground.Guard.Methods.{text_document}

abbrev pub max_content_changes : ℕ
max_content_changes = 128

abbrev pub refuse : Guard → String → Guard × Verdict
refuse g reason = (g, policy_violation reason)

-- The uri, the version and the changes of a didChange.
change_request : Option Json → Option (Text × ℕ × List Json)
change_request params = do
  document ← text_document params
  uri ← as_string (prop document "uri")
  version ← as_safe_natural (prop document "version")
  changes ← as_array (as_object params >>= λ fields. prop fields "contentChanges")
  if length changes == 0 || ltb max_content_changes (length changes)
      then none
      else some (uri, version, changes)

abbrev uri_of : Option Json → Option Text
uri_of params = text_document params >>= λ document. as_string (prop document "uri")

module _ (o : Config) (g : Guard) where
  -- The uri, the text and the version of a document that may be opened.
  opened : Fields → Option (Text × Text × ℕ)
  opened document = do
    uri ← as_string (prop document "uri")
    text ← as_string (prop document "text")
    version ← as_safe_natural (prop document "version")
    if has o.document_uris uri
          && not (is_some (get g.documents uri))
          && is_safe_document_text text o.max_document_bytes
        then some (uri, text, version)
        else none

  open_document : Text → Text → ℕ → Guard × Verdict
  open_document uri text version =
      let bytes = byte_length text in
      if ltb o.max_document_bytes (g.document_bytes + bytes)
      then refuse g "Open documents are too large"
      else (
        record g {
          documents =
              set g.documents uri (record { text = text; version = version; bytes = bytes });
          document_bytes = g.document_bytes + bytes;
          pending_document_update =
              some (record { uri = uri; text = text; notify_dependents = false });
        },
        accepted,
      )

  pub validate_did_open : Option Json → Guard × Verdict
  unfolding opened open_document
  validate_did_open params = elim (text_document params) [
    | none ↦ refuse g "Invalid didOpen notification"
    | some document ↦ elim (opened document) [
      | none ↦ refuse g "Invalid didOpen document"
      | some (uri, text, version) ↦ open_document uri text version
    ]
  ]

  -- The end of didChange and of didSave: a document is given its new text.
  replace_document : Text → Document → Text → ℕ → Guard × Verdict
  replace_document uri document text version =
      let bytes = byte_length text in
      if ltb o.max_document_bytes (g.document_bytes - document.bytes + bytes)
      then refuse g "Open documents are too large"
      else (
        record g {
          documents =
              set g.documents uri (record { text = text; version = version; bytes = bytes });
          document_bytes = g.document_bytes - document.bytes + bytes;
          pending_document_update =
              some (record { uri = uri; text = text; notify_dependents = true });
        },
        accepted,
      )

  change_document : Text → ℕ → List Json → Document → Guard × Verdict
  unfolding replace_document
  change_document uri version changes document =
      if leb version document.version
      then refuse g "Invalid didChange document"
      else elim (apply_document_changes document.text changes o.max_document_bytes) [
        | none ↦ refuse g "Invalid or oversized document change"
        | some text ↦ replace_document uri document text version
      ]

  pub validate_did_change : Option Json → Guard × Verdict
  unfolding change_request change_document
  validate_did_change params = elim (change_request params) [
    | none ↦ refuse g "Invalid didChange notification"
    | some (uri, version, changes) ↦ elim (get g.documents uri) [
      | none ↦ refuse g "Invalid didChange document"
      | some document ↦ change_document uri version changes document
    ]
  ]

  pub validate_did_close : Option Json → Guard × Verdict
  validate_did_close params = elim (uri_of params) [
    | none ↦ refuse g "Invalid didClose notification"
    | some uri ↦ elim (get g.documents uri) [
      | none ↦ refuse g "Invalid didClose document"
      | some document ↦ (
        record g {
          documents = delete g.documents uri;
          document_bytes = g.document_bytes - document.bytes;
        },
        accepted,
      )
    ]
  ]

  -- The text of a didSave, if it has one.
  save_document : Text → Document → Option Json → Guard × Verdict
  unfolding replace_document
  save_document uri document none = (g, accepted)
  save_document uri document (some raw) = elim (as_string (some raw)) [
    | none ↦ refuse g "Invalid didSave document"
    | some text ↦
        if is_safe_document_text text o.max_document_bytes
        then replace_document uri document text document.version
        else refuse g "Invalid didSave document"
  ]

  pub validate_did_save : Option Json → Guard × Verdict
  unfolding save_document
  validate_did_save params = elim (uri_of params) [
    | none ↦ refuse g "Invalid didSave notification"
    | some uri ↦ elim (get g.documents uri) [
      | none ↦ refuse g "Invalid didSave document"
      | some document ↦
          save_document uri document (as_object params >>= λ fields. prop fields "text")
    ]
  ]
