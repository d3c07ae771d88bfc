-- ===== src/Transport.antt =====
-- WebSocketLspTransport and DeferredDisposer of apps/web/lib/client/lsp-transport.ts: what passes between
-- the editor and the socket of the language server.
pub mod Accounts
pub mod Once
pub mod Silent
pub mod Disposer
use smart_c_playground.Prelude.{
  ℕ, ◌+◌, ◌*◌, Bool, true, false, not, ◌&&◌, ◌||◌, Option, none, some, List, [], ◌∷◌, ◌++◌, map,
  String, ltb, leb, ◌==◌, if◌then◌else◌,
}
use smart_c_playground.Text.{Text, text_eq, codes}

pub data LspDisconnectReason : Type 0 where
  error : LspDisconnectReason
  close : LspDisconnectReason
  timeout : LspDisconnectReason

abbrev pub socket_connecting : ℕ
socket_connecting = 0

abbrev pub socket_open : ℕ
socket_open = 1

abbrev pub socket_closed : ℕ
socket_closed = 3

abbrev lsp_reconnect_base_delay_ms : ℕ
lsp_reconnect_base_delay_ms = 750

abbrev pub lsp_max_reconnect_attempts : ℕ
lsp_max_reconnect_attempts = 3

unfoldable pub get_next_lsp_reconnect_delay : ℕ → Option ℕ
get_next_lsp_reconnect_delay attempts =
    if leb lsp_max_reconnect_attempts attempts
    then none
    else some (lsp_reconnect_base_delay_ms * (attempts + 1))

-- What the transport does to the outside: it settles the promises of waitUntilOpen and waitUntilClosed,
-- calls onUnexpectedDisconnect or a subscriber, sends or closes on the socket, or throws.
pub data Event : Type 0 where
  open_resolved : Event
  open_rejected : (reason : String) → Event
  closed_resolved : Event
  notified : LspDisconnectReason → Event
  delivered : (subscriber : ℕ) → (content : Text) → Event
  sent : (content : Text) → Event
  socket_close : (close_code : ℕ) → (reason : String) → Event
  thrown : (reason : String) → Event

-- A subscriber is the identity of its function. `resolve_open`, `reject_open` and `resolve_closed` say
-- that the field holds a function, `open_timer` that it holds a timer. `listens` is of the listeners of
-- open, message and error, and `listens_close` of that of close.
pub record Transport : Type 0 where
  pub subscribers : List ℕ
  pub resolve_open : Bool
  pub reject_open : Bool
  pub resolve_closed : Bool
  pub open_timer : Bool
  pub open_settled : Bool
  pub unavailable_notified : Bool
  pub disposed : Bool
  pub listens : Bool
  pub listens_close : Bool

-- One operation after the other, with all they do.
abbrev pub after :
    Transport × List Event → (Transport → Transport × List Event) → Transport × List Event
after (t, events) f = let (u, more) = f t in (u, events ++ more)

abbrev emit_if : Bool → Event → List Event
emit_if test event = if test then event ∷ [] else []

-- clearOpenTimer
abbrev clear_open_timer : Transport → Transport
clear_open_timer t = record t { open_timer = false }

unfoldable pub settle_open : Transport → Transport × List Event
settle_open t = if t.open_settled then (t, []) else (
  record (clear_open_timer t) { open_settled = true; resolve_open = false; reject_open = false },
  emit_if t.resolve_open open_resolved,
)

unfoldable pub fail_open : String → Transport → Transport × List Event
fail_open reason t = if t.open_settled then (t, []) else (
  record (clear_open_timer t) { open_settled = true; resolve_open = false; reject_open = false },
  emit_if t.reject_open (open_rejected reason),
)

unfoldable pub notify_unexpected_disconnect :
    LspDisconnectReason → Transport → Transport × List Event
notify_unexpected_disconnect reason t =
    if t.unavailable_notified
    then (t, [])
    else (record t { unavailable_notified = true }, notified reason ∷ [])

-- detachSocketListeners
abbrev detach_socket_listeners : Transport → Transport
detach_socket_listeners t = record t { listens = false; listens_close = false }

unfoldable pub settle_closed : Transport → Transport × List Event
settle_closed t = (
  detach_socket_listeners (record t { resolve_closed = false }),
  emit_if t.resolve_closed closed_resolved,
)

-- The fields as the constructor has set them when it looks at the state of the socket.
abbrev pub fresh : Transport
fresh = record {
  subscribers = [];
  resolve_open = true;
  reject_open = true;
  resolve_closed = true;
  open_timer = false;
  open_settled = false;
  unavailable_notified = false;
  disposed = false;
  listens = true;
  listens_close = true;
}

-- The end of the constructor for a socket that is closing or closed.
abbrev pub refuse_socket : ℕ → Transport × List Event → Transport × List Event
refuse_socket ready_state r = if ready_state == socket_closed then after r settle_closed else r

unfoldable pub constructed : (ready_state : ℕ) → Transport × List Event
unfolding settle_open fail_open notify_unexpected_disconnect settle_closed
constructed ready_state =
    if ready_state == socket_open
    then settle_open fresh
    else if ready_state == socket_connecting
    then (fresh, [])
    else refuse_socket ready_state (
        after (fail_open "LSP WebSocketは接続を開始できない状態です。" fresh) (notify_unexpected_disconnect close))

-- The time is `none` where it is not a finite number, or below zero.
unfoldable pub wait_until_open : (timeout_ms : Option ℕ) → Transport → Transport × List Event
wait_until_open timeout_ms t =
    if not t.open_settled && not t.open_timer
    then elim timeout_ms [
      | none ↦ (t, thrown "LSP WebSocketの接続timeoutは0以上の有限値で指定してください。" ∷ [])
      | some ms ↦ (record t { open_timer = true }, [])
    ]
    else (t, [])

-- The timer of waitUntilOpen fires.
unfoldable pub fire_open_timer : Transport → Transport × List Event
unfolding fail_open notify_unexpected_disconnect
fire_open_timer t =
    if t.open_timer
    then after (fail_open "LSP WebSocketの接続がtimeoutしました。" (clear_open_timer t))
        (notify_unexpected_disconnect timeout)
    else (t, [])

unfoldable pub send : (ready_state : ℕ) → Text → Transport → List Event
send ready_state message t =
    if t.disposed || not (ready_state == socket_open)
    then thrown "LSP WebSocketは送信可能な状態ではありません。" ∷ []
    else sent message ∷ []

-- set.has(handler)
unfoldable pub subscribed : List ℕ → ℕ → Bool
subscribed [] handler = false
subscribed (s ∷ ss) handler = s == handler || subscribed ss handler

-- set.delete(handler)
unfoldable pub remove : List ℕ → ℕ → List ℕ
remove [] handler = []
remove (s ∷ ss) handler = if s == handler then ss else s ∷ remove ss handler

unfoldable pub subscribe : ℕ → Transport → Transport
unfolding subscribed
subscribe handler t =
    if subscribed t.subscribers handler
    then t
    else record t { subscribers = t.subscribers ++ handler ∷ [] }

unfoldable pub unsubscribe : ℕ → Transport → Transport
unfolding remove
unsubscribe handler t = record t { subscribers = remove t.subscribers handler }

-- The last lines of dispose.
unfoldable pub close_socket : (ready_state : ℕ) → Transport → Transport × List Event
unfolding settle_closed
close_socket ready_state t =
    if ready_state == socket_connecting || ready_state == socket_open
    then (t, socket_close 1000 "client dispose" ∷ [])
    else if ready_state == socket_closed
    then settle_closed t
    else (t, [])

unfoldable pub dispose : (ready_state : ℕ) → Transport → Transport × List Event
unfolding fail_open close_socket
dispose ready_state t =
    if t.disposed
    then (t, [])
    else after
        (fail_open "LSP WebSocketの接続待機中にTransportが破棄されました。"
          (record t { disposed = true; subscribers = []; listens = false }))
        (close_socket ready_state)

unfoldable pub handle_open : Transport → Transport × List Event
unfolding settle_open
handle_open t = if t.disposed then (t, []) else settle_open t

-- The fan-out to the copied subscribers; `disposing` says which of them call dispose while they are called.
-- That does not stop the rest.
unfoldable pub fan_out :
    (ready_state : ℕ)
    → (content : Text) → (disposing : ℕ → Bool) → (subscribers : List ℕ) → Transport
    → Transport × List Event
unfolding dispose
fan_out ready_state content disposing [] t = (t, [])
fan_out ready_state content disposing (subscriber ∷ rest) t =
    let (next, events) = if disposing subscriber then dispose ready_state t else (t, []) in
    let (last, more) = fan_out ready_state content disposing rest next in
    (last, delivered subscriber content ∷ (events ++ more))

-- The content is `none` where it is no string.
unfoldable pub handle_message :
    (ready_state : ℕ) → Option Text → (disposing : ℕ → Bool) → Transport → Transport × List Event
unfolding fan_out
handle_message ready_state none disposing t = (t, [])
handle_message ready_state (some content) disposing t =
    if t.disposed then (t, []) else fan_out ready_state content disposing t.subscribers t

unfoldable pub handle_error : Transport → Transport × List Event
unfolding fail_open notify_unexpected_disconnect
handle_error t =
    if t.disposed
    then (t, [])
    else after (fail_open "LSP WebSocketの接続に失敗しました。" t) (notify_unexpected_disconnect error)

-- The rest of handleClose.
abbrev pub report_close : Transport → Transport × List Event
report_close t =
    if t.disposed
    then (t, [])
    else after (fail_open "LSP WebSocketが接続前に切断されました。" t) (notify_unexpected_disconnect close)

unfoldable pub handle_close : Transport → Transport × List Event
unfolding settle_closed fail_open notify_unexpected_disconnect
handle_close t = after (settle_closed t) report_close

-- What may happen to a transport: a call of its client, its timer, or an event of the socket.
pub data Action : Type 0 where
  waits : (timeout_ms : Option ℕ) → Action
  fires : Action
  sends : (message : Text) → Action
  subscribes : (handler : ℕ) → Action
  unsubscribes : (handler : ℕ) → Action
  disposes : Action
  opens : Action
  receives : (content : Option Text) → (disposing : ℕ → Bool) → Action
  fails : Action
  closes : Action

-- An event of the socket comes only to a listener that is attached.
unfoldable pub act : (ready_state : ℕ) → Transport → Action → Transport × List Event
unfolding wait_until_open fire_open_timer send subscribe unsubscribe dispose handle_open
    handle_message handle_error handle_close
act ready_state t (waits timeout_ms) = wait_until_open timeout_ms t
act ready_state t fires = fire_open_timer t
act ready_state t (sends message) = (t, send ready_state message t)
act ready_state t (subscribes handler) = (subscribe handler t, [])
act ready_state t (unsubscribes handler) = (unsubscribe handler t, [])
act ready_state t disposes = dispose ready_state t
act ready_state t opens = if t.listens then handle_open t else (t, [])
act ready_state t (receives content disposing) =
    if t.listens then handle_message ready_state content disposing t else (t, [])
act ready_state t fails = if t.listens then handle_error t else (t, [])
act ready_state t closes = if t.listens_close then handle_close t else (t, [])

-- Actions one after the other, each with the state of the socket, and all they do.
unfoldable pub run : Transport → List (ℕ × Action) → Transport × List Event
run t [] = (t, [])
run t ((ready_state, action) ∷ rest) =
    let (next, events) = act ready_state t action in
    let (last, more) = run next rest in (last, events ++ more)
