-- ===== src/Guard/Session/Screened.antt =====
-- What a message is that the guard lets through, in either direction.
use smart_c_playground.Prelude.{
  ℕ, ◌+◌, ◌≤◌, ◌≡◌, ◌≢◌, refl, inl, inr, true, not, none, some, arith, ltb, if◌then◌else◌, if_cases,
  Option-cases, Bool-cases,
}
use smart_c_playground.Text.{Text, byte_length}
use smart_c_playground.Json.{obj, Fields, as_object}
use smart_c_playground.Guard.Uris.{has_unexpected_uri}
use smart_c_playground.Guard.Uris.Clean.{IsClean}
use smart_c_playground.Guard.Uris.Sound.{has_unexpected_uri-IsClean}
use smart_c_playground.Guard.State.{Verdict, accepted, rejected, Config, Guard}
use smart_c_playground.Guard.Methods.{is_version_two}
use smart_c_playground.Guard.Session.{
  parse_json_object, consume_client_budget, validate_content, and_then, validate_client_message,
  validate_server_message, route,
}

module _ (o : Config) where
  -- A JSON-RPC object that names no file outside the session.
  pub data IsScreened (content : Text) : Type 0 where
    screened :
        (message : Fields)
        → as_object (o.parse_json content) ≡ some message
        → is_version_two message ≡ true
        → IsClean o.document_uris o.workspace_uri (obj message)
        → IsScreened content

  Screens : Text → Guard × Verdict → Type 0
  Screens content r = r.1 ≡ accepted → IsScreened content

  screen :
      (content : Text) (message : Fields) (refused₁ refused₂ passed : Guard × Verdict)
      → as_object (o.parse_json content) ≡ some message
      → refused₁.1 ≢ accepted
      → refused₂.1 ≢ accepted
      → (if not (is_version_two message)
          then refused₁
          else if has_unexpected_uri o.document_uris o.workspace_uri message
          then refused₂
          else passed).1
        ≡ accepted
      → IsScreened content
  screen content message refused₁ refused₂ passed p n₁ n₂ e =
      elim (Bool-cases (is_version_two message)) [
        | inr old ↦ absurd (n₁ (rw old at e))
        | inl two ↦ elim (Bool-cases (has_unexpected_uri o.document_uris o.workspace_uri message)) [
          | inl foreign ↦ absurd (n₂ (rw (two, foreign) at e))
          | inr clean ↦
              screened message p two
                (has_unexpected_uri-IsClean o.document_uris o.workspace_uri message clean)
        ]
      ]

  validate_content-IsScreened :
      (g : Guard) (content : Text)
      → (validate_content o g content).1 ≡ accepted
      → IsScreened content
  unfolding validate_content
  validate_content-IsScreened g content e = elim (Option-cases (parse_json_object o content)) [
    | inl f ↦ ground arith
    | inr (message, f) ↦
        screen content message _ _ (route o g message) f (λ q. cc) (λ q. cc)
          (rw (f, validate_content) at e)
  ]

  and_then-IsScreened :
      (r : Guard × Verdict) (content : Text)
      → (and_then r (λ charged. validate_content o charged content)).1 ≡ accepted
      → IsScreened content
  and_then-IsScreened (charged, accepted) content e = validate_content-IsScreened charged content e
  and_then-IsScreened (charged, rejected code reason) content e = absurd (stopped e)
    where
      stopped : rejected code reason ≡ accepted → ⊥
      stopped q = cc

  -- If `validate_client_message` accepts a content, then the content parses to an object whose
  -- `jsonrpc` is "2.0" and in which every string under one of the four URI names, at any depth, is
  -- the workspace URI or a document URI of the session.
  pub accepted-IsScreened :
      (g : Guard) (now : ℕ) (content : Text)
      → (validate_client_message o g now content).1 ≡ accepted
      → IsScreened content
  unfolding validate_client_message
  accepted-IsScreened g now content =
      and_then-IsScreened
        (consume_client_budget o (record g { pending_document_update = none }) now
          (byte_length content))
        content

  -- If `validate_server_message` accepts a content, that is a JSON-RPC 2.0 object with URIs of the
  -- session alone under the URI names, it is within the limits of a message, of the send buffer and
  -- of the session, and exactly its bytes are counted.
  pub validate_server_message_screens :
      (g : Guard) (content : Text) (buffered_amount : ℕ)
      → (validate_server_message o g content buffered_amount).1 ≡ accepted
      → IsScreened content
        × (byte_length content ≤ o.server_max_message_bytes)
        × (buffered_amount + byte_length content ≤ o.server_max_buffered_bytes)
        × ((validate_server_message o g content buffered_amount).0.server_session_bytes
            ≡ g.server_session_bytes + byte_length content)
        × (g.server_session_bytes + byte_length content ≤ o.server_max_session_bytes)
  unfolding validate_server_message
  validate_server_message_screens g content buffered_amount =
      let size = byte_length content in
      if_cases Fine (ltb o.server_max_message_bytes size) (λ _ e. cc)
        (λ small.
          if_cases Fine (ltb o.server_max_buffered_bytes (buffered_amount + size)) (λ _ e. cc)
            (λ room.
              if_cases Fine (ltb o.server_max_session_bytes (g.server_session_bytes + size))
                (λ _ e. cc)
                (λ within. elim (Option-cases (parse_json_object o content)) [
                  | inl f ↦ rw f (λ e. cc)
                  | inr (message, f) ↦ rw f (
                      if_cases Fine (not (is_version_two message)) (λ _ e. cc)
                        (λ two.
                          if_cases Fine (has_unexpected_uri o.document_uris o.workspace_uri message)
                            (λ _ e. cc)
                            (λ clean e. (
                              screened message f (ground arith) (
                                  has_unexpected_uri-IsClean o.document_uris o.workspace_uri message
                                    clean),
                              ground arith,
                              ground arith,
                              refl,
                              ground arith,
                            ))))
                ])))
    where
      Fine : Guard × Verdict → Type 0
      Fine r =
          r.1 ≡ accepted
          → IsScreened content
            × (byte_length content ≤ o.server_max_message_bytes)
            × (buffered_amount + byte_length content ≤ o.server_max_buffered_bytes)
            × (r.0.server_session_bytes ≡ g.server_session_bytes + byte_length content)
            × (g.server_session_bytes + byte_length content ≤ o.server_max_session_bytes)
