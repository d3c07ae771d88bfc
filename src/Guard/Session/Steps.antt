-- ===== src/Guard/Session/Steps.antt =====
-- What one message of the browser may do to the guard, as a step relation, and that it does no
-- more.
use smart_c_playground.Prelude.{
  ◌≡◌, refl, inl, inr, Bool, true, false, not, ◌&&◌, ◌||◌, Option, some, String, arith,
  if◌then◌else◌, Option-cases,
}
use smart_c_playground.Text.{Text, codes, text_eq, has}
use smart_c_playground.Json.{Json, Fields, as_string, prop}
use smart_c_playground.Guard.Uris.{has_unexpected_uri}
use smart_c_playground.Guard.State.{Verdict, accepted, policy_violation, Config, Guard}
use smart_c_playground.Guard.Methods.{
  client_methods, document_methods, is_valid_initialize_params, is_safe_configuration_change,
  has_allowed_text_document, is_json_rpc_response, is_version_two,
}
use smart_c_playground.Guard.Documents.Steps.{
  DocumentStep, validate_did_open-step, validate_did_change-step, validate_did_close-step,
  validate_did_save-step,
}
use smart_c_playground.Guard.Session.{
  parse_json_object, validate_initialize, validate_initialized, validate_shutdown, validate_exit,
  validate_active_method, validate_client_method, route, validate_content,
}

module _ (o : Config) (g : Guard) where
  pub data MessageStep : Guard × Verdict → Type 0 where
    stops : (reason : String) → MessageStep (g, policy_violation reason)
    passes : MessageStep (g, accepted)
    initializes :
        g.initialize_seen ≡ false → MessageStep (record g { initialize_seen = true }, accepted)
    is_initialized :
        g.initialize_seen ≡ true
        → g.initialized_seen ≡ false
        → MessageStep (record g { initialized_seen = true }, accepted)
    shuts_down :
        g.initialized_seen ≡ true
        → g.shutdown_seen ≡ false
        → MessageStep (record g { shutdown_seen = true }, accepted)
    edits :
        {r : Guard × Verdict}
        → g.initialized_seen ≡ true
        → g.shutdown_seen ≡ false
        → DocumentStep o g r
        → MessageStep r

  either :
      (b : Bool) {r s : Guard × Verdict}
      → MessageStep r
      → MessageStep s
      → MessageStep (if b then r else s)
  either true x y = x
  either false x y = y

  branch :
      (b : Bool) {r s : Guard × Verdict}
      → (b ≡ true → MessageStep r)
      → (b ≡ false → MessageStep s)
      → MessageStep (if b then r else s)
  branch true x y = x refl
  branch false x y = y refl

  validate_initialize-step : (params : Option Json) → MessageStep (validate_initialize o g params)
  unfolding validate_initialize
  validate_initialize-step params =
      let valid =
        is_valid_initialize_params params o.workspace_uri (o.file_url_to_path o.workspace_uri) in
      branch (g.initialize_seen || not valid) (λ _. stops _) (λ h. initializes (ground arith))

  validate_initialized-step : MessageStep (validate_initialized o g)
  unfolding validate_initialized
  validate_initialized-step =
      branch (not g.initialize_seen || g.initialized_seen) (λ _. stops _)
        (λ h. is_initialized (ground arith) (ground arith))

  validate_shutdown-step : MessageStep (validate_shutdown o g)
  unfolding validate_shutdown
  validate_shutdown-step =
      branch (not g.initialized_seen || g.shutdown_seen) (λ _. stops _)
        (λ h. shuts_down (ground arith) (ground arith))

  validate_exit-step : MessageStep (validate_exit o g)
  unfolding validate_exit
  validate_exit-step = either g.shutdown_seen passes (stops _)

  validate_active_method-step :
      (method : Text) (params : Option Json)
      → g.initialized_seen ≡ true
      → g.shutdown_seen ≡ false
      → MessageStep (validate_active_method o g method params)
  unfolding validate_active_method
  validate_active_method-step method params i s =
      either (is "textDocument/didOpen") (edits i s (validate_did_open-step o g params)) (
        either (is "textDocument/didChange") (edits i s (validate_did_change-step o g params)) (
          either (is "textDocument/didClose") (edits i s (validate_did_close-step o g params)) (
            either (is "textDocument/didSave") (edits i s (validate_did_save-step o g params)) (
              either (is "workspace/didChangeConfiguration")
                (either (is_safe_configuration_change params) passes (stops _))
                (either
                  (has document_methods method
                    && not (has_allowed_text_document params o.document_uris))
                  (stops _) passes)))))
    where
      is : String → Bool
      is name = text_eq method (codes name)

  validate_client_method-step :
      (method : Text) (params : Option Json)
      → MessageStep (validate_client_method o g method params)
  unfolding validate_client_method
  validate_client_method-step method params =
      either (is "$/cancelRequest" || is "$/setTrace") passes (
        either (is "initialize") (validate_initialize-step params) (
          either (is "initialized") validate_initialized-step (
            either (is "shutdown") validate_shutdown-step (
              either (is "exit") validate_exit-step (
                branch (not g.initialized_seen || g.shutdown_seen) (λ _. stops _)
                  (λ h.
                    validate_active_method-step method params (ground arith) (ground arith)))))))
    where
      is : String → Bool
      is name = text_eq method (codes name)

  route-step : (message : Fields) → MessageStep (route o g message)
  unfolding route
  route-step message = elim (Option-cases (prop message "method")) [
    | inl e ↦ rw (e, route) (either (is_json_rpc_response message) passes (stops _))
    | inr (raw, e) ↦ elim (Option-cases (as_string (some raw))) [
      | inl f ↦ rw (e, route, f) (stops _)
      | inr (method, f) ↦
          rw (e, route, f)
            (either (has client_methods method)
              (validate_client_method-step method (prop message "params")) (stops _))
    ]
  ]

  -- On every guard and content, what follows the budget check is one of the specified steps: it
  -- refuses or passes and changes nothing, it sets one flag of the life cycle in its turn, or a
  -- document handler opens, edits, saves or closes one document or changes nothing.
  pub validate_content-step : (content : Text) → MessageStep (validate_content o g content)
  unfolding validate_content
  validate_content-step content = elim (Option-cases (parse_json_object o content)) [
    | inl e ↦ rw (e, validate_content) (stops _)
    | inr (message, e) ↦
        rw (e, validate_content)
          (either (not (is_version_two message)) (stops _) (
            either (has_unexpected_uri o.document_uris o.workspace_uri message) (stops _)
              (route-step message)))
  ]
