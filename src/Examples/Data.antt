-- ===== src/Examples/Data.antt =====
-- A session with one document, its messages and its guard.
use smart_c_playground.Prelude.{none, some, [], ◌∷◌, String, if◌then◌else◌}
use smart_c_playground.Text.{Text, codes, text_eq}
use smart_c_playground.Json.{pos, null, num, str, arr, obj, nil, cons, Fields, end, field}
use smart_c_playground.Guard.State.{Platform, Config, Guard, configure, init}
use smart_c_playground.Guard.Session.{validate_client_message}
use smart_c_playground.Guard.Session.Invariant.{
  IsValid, init-IsValid, validate_client_message-IsValid,
}

abbrev pub main_uri : Text
main_uri = codes "file:///w/main.c"

abbrev pub workspace_uri : Text
workspace_uri = codes "file:///w"

abbrev pub message : String → Fields → Fields
message method rest =
    field (codes "jsonrpc") (str (codes "2.0")) (field (codes "method") (str (codes method)) rest)

abbrev pub initialize_fields : Fields
initialize_fields = message "initialize" (
    field (codes "params")
      (obj (
        field (codes "processId") null (
          field (codes "rootUri") (str workspace_uri)
            (field (codes "capabilities") (obj end) end))))
      end)

abbrev pub initialized_fields : Fields
initialized_fields = message "initialized" end

abbrev pub open_fields : Fields
open_fields = message "textDocument/didOpen" (
    field (codes "params")
      (obj (
        field (codes "textDocument")
          (obj (
            field (codes "uri") (str main_uri) (
              field (codes "languageId") (str (codes "c")) (
                field (codes "version") (num (pos 1))
                  (field (codes "text") (str (codes "int x;")) end)))))
          end))
      end)

abbrev pub change_fields : Fields
change_fields = message "textDocument/didChange" (
    field (codes "params")
      (obj (
        field (codes "textDocument")
          (obj (field (codes "uri") (str main_uri) (field (codes "version") (num (pos 2)) end)))
          (field (codes "contentChanges")
            (arr (cons (obj (field (codes "text") (str (codes "int y;")) end)) nil)) end)))
      end)

abbrev pub response_fields : Fields
response_fields =
    field (codes "jsonrpc") (str (codes "2.0"))
      (field (codes "id") (num (pos 1)) (field (codes "result") null end))

-- The contents are short names for their messages.
abbrev pub platform : Platform
platform = record {
  parse_json = λ content.
      if text_eq content (codes "a")
      then some (obj initialize_fields)
      else if text_eq content (codes "b")
      then some (obj initialized_fields)
      else if text_eq content (codes "c")
      then some (obj open_fields)
      else if text_eq content (codes "d")
      then some (obj change_fields)
      else if text_eq content (codes "e")
      then some (obj response_fields)
      else none;
  file_url_to_path = λ url. url;
}

abbrev pub config : Config
config = configure platform (record {
  document_uris = main_uri ∷ [];
  workspace_uri = workspace_uri;
  max_document_bytes = none;
  client_rate_window_ms = none;
  client_max_messages_per_window = none;
  client_max_session_bytes = none;
  server_max_message_bytes = none;
  server_max_buffered_bytes = none;
  server_max_session_bytes = none;
})

-- The guard after each message.
abbrev pub initialized_guard : Guard
initialized_guard =
    (validate_client_message config (validate_client_message config (init 0) 1 (codes "a")).0 2
      (codes "b")).0

abbrev pub opened_guard : Guard
opened_guard = (validate_client_message config initialized_guard 3 (codes "c")).0

pub initialized_guard-IsValid : IsValid config initialized_guard
initialized_guard-IsValid =
    validate_client_message-IsValid config _ 2 (codes "b")
      (validate_client_message-IsValid config (init 0) 1 (codes "a") (init-IsValid config 0))

pub opened_guard-IsValid : IsValid config opened_guard
opened_guard-IsValid =
    validate_client_message-IsValid config initialized_guard 3 (codes "c") initialized_guard-IsValid
