-- ===== src/Guard/Methods.antt =====
-- The methods that apps/lsp/src/json-rpc-guard.ts admits and its checks of parameters that need no
-- state.
use smart_c_playground.Prelude.{
  Bool, true, false, not, ◌&&◌, ◌||◌, Option, none, some, List, [], ◌∷◌, ◌==◌, if◌then◌else◌,
  is_some, map, ◌>>=◌,
}
use smart_c_playground.Text.{Text, codes, text_eq, has}
use smart_c_playground.Json.{
  Json, null, bool, num, str, arr, obj, Fields, end, field, as_object, as_array, as_string, prop,
}

unfoldable pub client_methods : List Text
unfolding codes
client_methods = map codes (
    "$/cancelRequest" ∷ "$/setTrace" ∷ "codeAction/resolve" ∷ "codeLens/resolve"
    ∷ "colorPresentation" ∷ "completionItem/resolve" ∷ "documentLink/resolve" ∷ "exit"
    ∷ "initialize" ∷ "initialized" ∷ "inlayHint/resolve" ∷ "shutdown" ∷ "textDocument/codeAction"
    ∷ "textDocument/codeLens" ∷ "textDocument/colorPresentation" ∷ "textDocument/completion"
    ∷ "textDocument/declaration" ∷ "textDocument/definition" ∷ "textDocument/diagnostic"
    ∷ "textDocument/didChange" ∷ "textDocument/didClose" ∷ "textDocument/didOpen"
    ∷ "textDocument/didSave" ∷ "textDocument/documentColor" ∷ "textDocument/documentHighlight"
    ∷ "textDocument/documentLink" ∷ "textDocument/documentSymbol" ∷ "textDocument/foldingRange"
    ∷ "textDocument/formatting" ∷ "textDocument/hover" ∷ "textDocument/implementation"
    ∷ "textDocument/inlayHint" ∷ "textDocument/linkedEditingRange" ∷ "textDocument/moniker"
    ∷ "textDocument/onTypeFormatting" ∷ "textDocument/prepareRename"
    ∷ "textDocument/rangeFormatting" ∷ "textDocument/references" ∷ "textDocument/rename"
    ∷ "textDocument/selectionRange" ∷ "textDocument/semanticTokens/full"
    ∷ "textDocument/semanticTokens/full/delta" ∷ "textDocument/semanticTokens/range"
    ∷ "textDocument/signatureHelp" ∷ "textDocument/typeDefinition" ∷ "textDocument/willSave"
    ∷ "textDocument/willSaveWaitUntil" ∷ "window/workDoneProgress/cancel"
    ∷ "workspace/didChangeConfiguration" ∷ [])

-- text.startsWith(prefix)
starts_with : Text → Text → Bool
starts_with text [] = true
starts_with [] (b ∷ prefix) = false
starts_with (a ∷ text) (b ∷ prefix) = a == b && starts_with text prefix

keep_document_methods : List Text → List Text
unfolding starts_with
keep_document_methods [] = []
keep_document_methods (m ∷ ms) =
    let rest = keep_document_methods ms in
    if starts_with m (codes "textDocument/") && not (starts_with m (codes "textDocument/did"))
    then m ∷ rest
    else rest

pub document_methods : List Text
unfolding keep_document_methods client_methods
document_methods = keep_document_methods client_methods

-- x === undefined || x === null
abbrev is_nullish : Option Json → Bool
is_nullish none = true
is_nullish (some null) = true
is_nullish (some (bool b)) = false
is_nullish (some (num n)) = false
is_nullish (some (str s)) = false
is_nullish (some (arr vs)) = false
is_nullish (some (obj fs)) = false

-- x === text
is_text : Option Json → Text → Bool
is_text raw text = elim (as_string raw) [ none ↦ false | some s ↦ text_eq s text ]

-- An object with no property of its own.
is_empty_object : Option Json → Bool
is_empty_object raw = elim (as_object raw) [
  | none ↦ false
  | some end ↦ true
  | some (field k v fs) ↦ false
]

-- The one workspace folder, if a list is given at all.
allows_folders : Option Json → Text → Bool
unfolding is_text
allows_folders raw workspace_uri = elim (as_array raw) [
  | some (folder ∷ []) ↦ elim (as_object (some folder)) [
    | none ↦ false
    | some fs ↦ is_text (prop fs "uri") workspace_uri
  ]
  | _ ↦ false
]

unfoldable pub is_valid_initialize_params :
    Option Json → (workspace_uri workspace_path : Text) → Bool
unfolding is_text is_empty_object allows_folders
is_valid_initialize_params raw workspace_uri workspace_path = elim (as_object raw) [
  | none ↦ false
  | some params ↦
      is_text (prop params "rootUri") workspace_uri
      && (is_nullish (prop params "rootPath") || is_text (prop params "rootPath") workspace_path)
      && (is_nullish (prop params "workspaceFolders")
          || allows_folders (prop params "workspaceFolders") workspace_uri)
      && (is_nullish (prop params "initializationOptions")
          || is_empty_object (prop params "initializationOptions"))
]

pub is_safe_configuration_change : Option Json → Bool
unfolding is_empty_object
is_safe_configuration_change raw = elim (as_object raw) [
  | none ↦ false
  | some params ↦ is_nullish (prop params "settings") || is_empty_object (prop params "settings")
]

-- params.textDocument, where both are objects
pub text_document : Option Json → Option Fields
text_document raw = as_object raw >>= λ params. as_object (prop params "textDocument")

pub has_allowed_text_document : Option Json → List Text → Bool
unfolding text_document
has_allowed_text_document raw document_uris =
    elim (text_document raw >>= λ document. as_string (prop document "uri")) [
      | none ↦ false
      | some uri ↦ has document_uris uri
    ]

-- A string, a number or null.
abbrev is_id : Option Json → Bool
is_id (some (str s)) = true
is_id (some (num n)) = true
is_id (some null) = true
is_id (some (bool b)) = false
is_id (some (arr vs)) = false
is_id (some (obj fs)) = false
is_id none = false

abbrev differ : Bool → Bool → Bool
differ true b = not b
differ false b = b

unfoldable pub is_json_rpc_response : Fields → Bool
is_json_rpc_response message =
    is_id (prop message "id")
    && differ (is_some (prop message "result")) (is_some (prop message "error"))

-- message.jsonrpc === "2.0"
unfoldable pub is_version_two : Fields → Bool
unfolding is_text
is_version_two message = is_text (prop message "jsonrpc") (codes "2.0")
