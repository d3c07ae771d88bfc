-- ===== src/Guard/Change.antt =====
-- applyDocumentChange and isSafeDocumentText of apps/lsp/src/json-rpc-guard.ts: one edit of a text.
pub mod Safe
use smart_c_playground.Prelude.{
  ℕ, Bool, true, false, not, ◌&&◌, Option, none, some, List, [], ◌∷◌, ◌++◌, ◌||◌, ltb, leb,
  if◌then◌else◌, ◌>>=◌, is_some, take, drop,
}
use smart_c_playground.Text.{Text, includes, byte_length}
use smart_c_playground.Json.{Json, Fields, as_object, as_string, as_safe_natural, prop}
use smart_c_playground.Guard.Position.{position_to_offset}

pub is_safe_document_text : Text → ℕ → Bool
is_safe_document_text text maximum_bytes =
    not (includes text 0) && leb (byte_length text) maximum_bytes

-- rangeLength, where it is given, is a number of units.
allows_range_length : Option Json → Bool
allows_range_length none = true
allows_range_length (some raw) = is_some (as_safe_natural (some raw))

-- current.slice(0, start) + text + current.slice(end)
pub splice : Text → ℕ → ℕ → Text → Text
splice current start end text = take start current ++ (text ++ drop end current)

-- The branch with a range.
replace_range : Text → Fields → Fields → Text → Option Text
unfolding allows_range_length splice
replace_range current change range text = do
  start ← position_to_offset current (prop range "start")
  end ← position_to_offset current (prop range "end")
  if ltb end start || not (allows_range_length (prop change "rangeLength"))
      then none
      else some (splice current start end text)

-- The text after the change, where no range means a change of the whole.
next_text : Text → Fields → Option Json → Text → Option Text
unfolding replace_range
next_text current change none text = some text
next_text current change (some raw) text = do
  range ← as_object (some raw)
  replace_range current change range text

unfoldable pub apply_document_change : Text → Json → ℕ → Option Text
unfolding next_text is_safe_document_text
apply_document_change current raw_change maximum_bytes = do
  change ← as_object (some raw_change)
  text ← as_string (prop change "text")
  next ← if includes text 0 then none else next_text current change (prop change "range") text
  if is_safe_document_text next maximum_bytes then some next else none

-- The loop over the changes of one didChange.
unfoldable pub apply_document_changes : Text → List Json → ℕ → Option Text
unfolding apply_document_change
apply_document_changes current [] maximum_bytes = some current
apply_document_changes current (change ∷ changes) maximum_bytes =
    elim (apply_document_change current change maximum_bytes) [
      | none ↦ none
      | some next ↦ apply_document_changes next changes maximum_bytes
    ]
