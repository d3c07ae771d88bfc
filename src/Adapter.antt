-- ===== src/Adapter.antt =====
-- JsonRpcWebSocketAdapter of apps/lsp/src/session-manager.ts: what passes between a browser's socket and
-- clangd. The promise chain is a queue whose first task may be waiting for its file to be written.
pub mod Violation
pub mod Order
use smart_c_playground.Prelude.{
  ℕ, ◌+◌, Bool, true, false, not, ◌&&◌, ◌||◌, Option, none, some, List, [], ◌∷◌, ◌++◌, map, String,
  ◌==◌, if◌then◌else◌,
}
use smart_c_playground.Text.{Text, codes, has}
use smart_c_playground.Json.{pos, Json, bool, num, str, arr, obj, nil, end, field}
use smart_c_playground.Guard.State.{Verdict, accepted, rejected, Config, Update, Guard}
use smart_c_playground.Guard.Session.{
  validate_client_message, validate_server_message, take_document_update, open_document_versions,
}

-- What the adapter does to the outside: it calls onActivity, onViolation, onDocumentUpdate, the
-- callback of clangd's reader, or webSocket.send and close.
pub data Event : Type 0 where
  activity : Event
  reported : (close_code : ℕ) → (reason : String) → Event
  written : Update → Event
  delivered : Text → Event
  forced : Json → Event
  sent : Text → Event
  closed : (close_code : ℕ) → (reason : String) → Event

-- A task of the message queue: a message, or a rebuild of a generation.
pub data Task : Type 0 where
  message :
      (content : Text) → (document_update : Option Update) → (rebuild_generation : Option ℕ) → Task
  rebuild : (generation : ℕ) → Task

-- `timer` is the generation that the rebuild timer was set for; `writing`, whether the first task waits
-- for its file.
pub record Adapter : Type 0 where
  pub guard : Guard
  pub message_queue : List Task
  pub writing : Bool
  pub timer : Option ℕ
  pub generation : ℕ
  pub violated : Bool

-- The socket's state is an argument, as `is_open`.
pub record Wiring : Type 0 where
  pub limits : Config
  pub header_uris : List Text
  pub translation_unit_uris : List Text

unfoldable pub connect : Guard → Adapter
connect guard = record {
  guard = guard;
  message_queue = [];
  writing = false;
  timer = none;
  generation = 0;
  violated = false;
}

-- #cancelHeaderRebuild, which is also #beginHeaderRebuild
abbrev pub cancel_header_rebuild : Adapter → Adapter
cancel_header_rebuild a = record a { generation = a.generation + 1; timer = none }

pub report_violation : Adapter → ℕ → String → Adapter × List Event
report_violation a code reason =
    if a.violated
    then (a, [])
    else (cancel_header_rebuild (record a { violated = true }), reported code reason ∷ [])

-- createForceRebuild, before JSON.stringify
pub create_force_rebuild : Text × ℕ → Json
create_force_rebuild (uri, version) = obj (
    field (codes "jsonrpc") (str (codes "2.0")) (
      field (codes "method") (str (codes "textDocument/didChange")) (
        field (codes "params")
          (obj (
            field (codes "textDocument")
              (obj
                (field (codes "uri") (str uri) (field (codes "version") (num (pos version)) end)))
              (field (codes "contentChanges") (arr nil) (
                field (codes "forceRebuild") (bool true)
                  (field (codes "wantDiagnostics") (bool true) end)))))
          end)))

-- The open documents that are translation units.
pub units_of : List Text → List (Text × ℕ) → List (Text × ℕ)
units_of uris [] = []
units_of uris (document ∷ rest) =
    let units = units_of uris rest in if has uris document.0 then document ∷ units else units

-- #scheduleHeaderRebuild
unfoldable pub schedule_header_rebuild : Adapter → Option ℕ → Adapter
schedule_header_rebuild a none = a
schedule_header_rebuild a (some generation) =
    if generation == a.generation then record a { timer = some generation } else a

module _ (w : Wiring) where
  -- The update is of a header, and its dependents are to be told.
  abbrev pub is_header_update : Option Update → Bool
  is_header_update none = false
  is_header_update (some update) = update.notify_dependents && has w.header_uris update.uri

  -- The rest of onMessage for an accepted message.
  pub enqueue : Adapter → Text → Option Update → Adapter
  enqueue a content update =
      let begun = cancel_header_rebuild a in
      if is_header_update update
      then record begun {
        message_queue = a.message_queue ++ message content update (some begun.generation) ∷ [];
      }
      else record a { message_queue = a.message_queue ++ message content update none ∷ [] }

  pub after_verdict : Adapter → Text → Guard × Verdict → Adapter × List Event
  unfolding enqueue report_violation
  after_verdict a content (guard, rejected code reason) =
      report_violation (record a { guard = guard }) code reason
  after_verdict a content (guard, accepted) =
      let (taken, update) = take_document_update guard in
      (enqueue (record a { guard = taken }) content update, [])

  -- The handler of onMessage.
  pub on_message : Adapter → ℕ → (is_binary : Bool) → Text → Adapter × List Event
  unfolding after_verdict
  on_message a now is_binary content =
      if is_binary
      then report_violation a 1003 "Text frames are required"
      else after_verdict a content (validate_client_message w.limits a.guard now content)

  pub after_screening : Adapter → Text → Guard × Verdict → Adapter × List Event
  unfolding report_violation
  after_screening a content (guard, rejected code reason) =
      report_violation (record a { guard = guard }) code reason
  after_screening a content (guard, accepted) =
      (record a { guard = guard }, activity ∷ sent content ∷ [])

  pub send : Adapter → (is_open : Bool) → Text → (buffered_amount : ℕ) → Adapter × List Event
  unfolding after_screening
  send a is_open content buffered_amount =
      if is_open
      then after_screening a content
          (validate_server_message w.limits a.guard content buffered_amount)
      else (a, [])

  -- The end of a message's task, once its file is written or where it has none.
  pub deliver : Adapter → (is_open : Bool) → Text → Option ℕ → Adapter × List Event
  unfolding schedule_header_rebuild
  deliver a is_open content rebuild_generation =
      if a.violated || not is_open
      then (a, [])
      else (schedule_header_rebuild a rebuild_generation, activity ∷ delivered content ∷ [])

  -- The task of a rebuild.
  pub force_rebuild : Adapter → (is_open : Bool) → ℕ → List Event
  unfolding units_of create_force_rebuild
  force_rebuild a is_open generation =
      if a.violated || not is_open || not (generation == a.generation)
      then []
      else elim (units_of w.translation_unit_uris (open_document_versions a.guard)) [
        | [] ↦ []
        | unit ∷ units ↦ activity ∷ map (λ u. forced (create_force_rebuild u)) (unit ∷ units)
      ]

  -- The first task of the queue begins.
  pub begin_task : Adapter → (is_open : Bool) → List Task → Adapter × List Event
  unfolding deliver force_rebuild
  begin_task a is_open [] = (a, [])
  begin_task a is_open (rebuild generation ∷ rest) =
      (record a { message_queue = rest }, force_rebuild a is_open generation)
  begin_task a is_open (message content none generation ∷ rest) =
      deliver (record a { message_queue = rest }) is_open content generation
  begin_task a is_open (message content (some update) generation ∷ rest) =
      if a.violated
      then (record a { message_queue = rest }, [])
      else (record a { writing = true }, written update ∷ [])

  -- Its file is written, or could not be.
  pub end_task : Adapter → (is_open is_written : Bool) → List Task → Adapter × List Event
  unfolding deliver report_violation
  end_task a is_open is_written [] = (a, [])
  end_task a is_open is_written (rebuild generation ∷ rest) = (a, [])
  end_task a is_open is_written (message content update generation ∷ rest) =
      let next : Adapter = record a { message_queue = rest; writing = false } in
      if is_written
      then deliver next is_open content generation
      else report_violation next 1011 "Failed to synchronize LSP document"

  -- The rebuild timer fires.
  pub fire : Adapter → Option ℕ → Adapter
  fire a none = a
  fire a (some generation) = record a {
    timer = none;
    message_queue = a.message_queue ++ rebuild generation ∷ [];
  }

  pub dispose : Adapter → (is_open : Bool) → Adapter × List Event
  dispose a is_open =
      (cancel_header_rebuild a, if is_open then closed 1000 "Connection disposed" ∷ [] else [])

  -- What may happen to the adapter.
  pub data Action : Type 0 where
    arrives : (now : ℕ) → (is_binary : Bool) → (content : Text) → Action
    responds : (content : Text) → (buffered_amount : ℕ) → Action
    begins : Action
    ends : (is_written : Bool) → Action
    fires : Action
    closes : Action
    disposes : Action

  unfoldable pub act : Adapter → (is_open : Bool) → Action → Adapter × List Event
  unfolding on_message send begin_task end_task fire dispose
  act a is_open (arrives now is_binary content) = on_message a now is_binary content
  act a is_open (responds content buffered_amount) = send a is_open content buffered_amount
  act a is_open begins = if a.writing then (a, []) else begin_task a is_open a.message_queue
  act a is_open (ends is_written) =
      if a.writing then end_task a is_open is_written a.message_queue else (a, [])
  act a is_open fires = (fire a a.timer, [])
  act a is_open closes = (cancel_header_rebuild a, [])
  act a is_open disposes = dispose a is_open

  -- Actions one after the other, each with the state of the socket, and all they do.
  unfoldable pub run : Adapter → List (Bool × Action) → Adapter × List Event
  run a [] = (a, [])
  run a ((is_open, action) ∷ rest) =
      let (next, events) = act a is_open action in
      let (last, more) = run next rest in (last, events ++ more)
