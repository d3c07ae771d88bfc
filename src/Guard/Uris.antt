-- ===== src/Guard/Uris.antt =====
-- hasUnexpectedUri of apps/lsp/src/json-rpc-guard.ts: the search for foreign URIs in a message.
-- The loop recurs on the nodes that may still be visited, so it needs no fuel.
pub mod Clean
pub mod Sound
pub mod Complete
use smart_c_playground.Prelude.{
  ℕ, zero, suc, ◌+◌, Bool, true, false, not, ◌&&◌, ◌||◌, Option, none, some, List, [], ◌∷◌, ltb,
  if◌then◌else◌,
}
use smart_c_playground.Text.{Text, codes, text_eq, has}
use smart_c_playground.Json.{Json, null, bool, num, str, arr, obj, Items, Fields, end, field, items}

abbrev max_json_nodes : ℕ
max_json_nodes = 16384

abbrev pub max_json_depth : ℕ
max_json_depth = 64

pub uri_property_names : List Text
unfolding codes
uri_property_names = codes "uri" ∷ codes "targetUri" ∷ codes "oldUri" ∷ codes "newUri" ∷ []

-- An entry of the stack `pending`.
pub record Entry : Type 0 where
  pub depth : ℕ
  pub value : Json

abbrev is_container : Json → Bool
is_container (arr vs) = true
is_container (obj fs) = true
is_container _ = false

abbrev push_items : ℕ → List Json → List Entry → List Entry
push_items depth [] pending = pending
push_items depth (v ∷ vs) pending =
    push_items depth vs (record { depth = depth + 1; value = v } ∷ pending)

abbrev push_container : ℕ → Json → List Entry → List Entry
push_container depth v pending =
    if is_container v then record { depth = depth + 1; value = v } ∷ pending else pending

module _ (document_uris : List Text) (workspace_uri : Text) where
  -- The test of one property.
  is_unexpected : Text → Json → Bool
  is_unexpected k (str s) =
      has uri_property_names k && not (text_eq s workspace_uri) && not (has document_uris s)
  is_unexpected k _ = false

  -- The loop over the properties; `none` is the early `return true`.
  visit_fields : ℕ → Fields → List Entry → Option (List Entry)
  visit_fields depth end pending = some pending
  visit_fields depth (field k v rest) pending =
      let next = visit_fields depth rest (push_container depth v pending) in
      if is_unexpected k v then none else next

  visit : ℕ → Json → List Entry → Option (List Entry)
  visit depth (arr vs) pending = some (push_items depth (items vs) pending)
  visit depth (obj fs) pending = visit_fields depth fs pending
  visit depth _ pending = some pending

  -- One round for an entry that was popped.
  round : Entry → List Entry → Option (List Entry)
  round e pending = if ltb max_json_depth e.depth then none else visit e.depth e.value pending

  -- The first argument is how many nodes may still be visited.
  scan : ℕ → List Entry → Bool
  scan zero [] = false
  scan zero (e ∷ pending) = true
  scan (suc left) [] = false
  scan (suc left) (e ∷ pending) = elim (round e pending) [
    | none ↦ true
    | some next ↦ scan left next
  ]

  unfoldable pub has_unexpected_uri : Fields → Bool
  unfolding scan round visit visit_fields is_unexpected uri_property_names
  has_unexpected_uri fs = scan max_json_nodes (record { depth = 0; value = obj fs } ∷ [])
