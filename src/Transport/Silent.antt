-- ===== src/Transport/Silent.antt =====
-- What WebSocketLspTransport of apps/web/lib/client/lsp-transport.ts does after dispose.
use smart_c_playground.Prelude.{
  ℕ, ◌≡◌, refl, sym, ◌∙◌, if_cases, if◌then◌else◌, Bool, true, false, none, some, List, [], ◌∷◌,
  arith,
}
use mathlib.Core.Bool.{true≢false}
use smart_c_playground.Text.{Text}
use smart_c_playground.Transport.{
  Event, open_resolved, open_rejected, closed_resolved, notified, delivered, sent, socket_close,
  thrown, Transport, settle_open, fail_open, notify_unexpected_disconnect, settle_closed,
  constructed, wait_until_open, fire_open_timer, send, subscribe, unsubscribe, close_socket,
  dispose, fan_out, handle_open, handle_message, handle_error, handle_close, Action, waits, fires,
  sends, subscribes, unsubscribes, disposes, opens, receives, fails, closes, act, run,
}
use smart_c_playground.Transport.Accounts.{count, count-append, IsSound}
use smart_c_playground.Transport.Once.{from_construction, from_construction-IsSound}

-- What the client, the owner and the socket may see of it, less the close of the socket.
abbrev pub is_loud : Event → Bool
is_loud open_resolved = true
is_loud (open_rejected reason) = true
is_loud closed_resolved = false
is_loud (notified reason) = true
is_loud (delivered subscriber content) = true
is_loud (sent content) = true
is_loud (socket_close code reason) = true
is_loud (thrown reason) = false

-- A transport that is disposed of has settled the promise of waitUntilOpen, and set no timer.
abbrev IsQuiet : Transport → Type 0
IsQuiet t = (t.disposed ≡ true) × (t.open_settled ≡ true) × (t.open_timer ≡ false)

abbrev StaysQuiet : Transport × List Event → Type 0
StaysQuiet r = IsQuiet r.0 × (count is_loud r.1 ≡ 0)

handle_message-StaysQuiet :
    (ready_state : ℕ) (content : Text) (disposing : ℕ → Bool) (t : Transport)
    → IsQuiet t
    → StaysQuiet (handle_message ready_state (some content) disposing t)
unfolding handle_message count
handle_message-StaysQuiet ready_state content disposing t q =
    if_cases StaysQuiet t.disposed (λ _. (q, refl)) (λ e. absurd (true≢false (sym q.0 ∙ e)))

act-StaysQuiet :
    (ready_state : ℕ) (t : Transport) (action : Action)
    → IsQuiet t
    → StaysQuiet (act ready_state t action)
unfolding act wait_until_open fire_open_timer send subscribe unsubscribe dispose handle_open
    handle_message handle_error handle_close settle_closed count
act-StaysQuiet ready_state t (waits none) q = ground arith
act-StaysQuiet ready_state t (waits (some ms)) q = ground arith
act-StaysQuiet ready_state t fires q = ground arith
act-StaysQuiet ready_state t (sends message) q = ground arith
act-StaysQuiet ready_state t (subscribes handler) q = ground arith
act-StaysQuiet ready_state t (unsubscribes handler) q = ground arith
act-StaysQuiet ready_state t disposes q = ground arith
act-StaysQuiet ready_state t opens q = ground arith
act-StaysQuiet ready_state t (receives none disposing) q = ground arith
act-StaysQuiet ready_state t (receives (some content) disposing) q =
    if_cases StaysQuiet t.listens (λ _. handle_message-StaysQuiet ready_state content disposing t q)
      (λ _. (q, refl))
act-StaysQuiet ready_state t fails q = ground arith
act-StaysQuiet ready_state t closes q = ground arith

run-StaysQuiet :
    (t : Transport) (actions : List (ℕ × Action)) → IsQuiet t → StaysQuiet (run t actions)
unfolding run count
run-StaysQuiet t [] q = (q, refl)
run-StaysQuiet t ((ready_state, action) ∷ rest) q =
    let a = act-StaysQuiet ready_state t action q in
    let r = act ready_state t action in
    let b = run-StaysQuiet r.0 rest a.0 in
    (b.0, omega (arith, a.1, b.1, count-append is_loud r.1 (run r.0 rest).1))

-- A transport that is disposed of has settled, and so it is at any time.
abbrev IsSettled : Transport → Type 0
IsSettled t = t.disposed ≡ true → t.open_settled ≡ true

dispose-IsSettled :
    (ready_state : ℕ) (t : Transport) → IsSettled t → IsSettled (dispose ready_state t).0
unfolding dispose fail_open close_socket settle_closed
dispose-IsSettled ready_state t q = ground arith

fan_out-IsSettled :
    (ready_state : ℕ) (content : Text) (disposing : ℕ → Bool) (subscribers : List ℕ) (t : Transport)
    → IsSettled t
    → IsSettled (fan_out ready_state content disposing subscribers t).0
unfolding fan_out
fan_out-IsSettled ready_state content disposing [] t q = q
fan_out-IsSettled ready_state content disposing (subscriber ∷ rest) t q =
    fan_out-IsSettled ready_state content disposing rest
      (if disposing subscriber then dispose ready_state t else (t, [])).0
      (if_cases (λ (r : Transport × List Event). IsSettled r.0) (disposing subscriber)
        (λ _. dispose-IsSettled ready_state t q) (λ _. q))

handle_message-IsSettled :
    (ready_state : ℕ) (content : Text) (disposing : ℕ → Bool) (t : Transport)
    → IsSettled t
    → IsSettled (handle_message ready_state (some content) disposing t).0
unfolding handle_message
handle_message-IsSettled ready_state content disposing t q =
    if_cases (λ (r : Transport × List Event). IsSettled r.0) t.disposed (λ _. q)
      (λ _. fan_out-IsSettled ready_state content disposing t.subscribers t q)

act-IsSettled :
    (ready_state : ℕ) (t : Transport) (action : Action)
    → IsSettled t
    → IsSettled (act ready_state t action).0
unfolding act wait_until_open fire_open_timer send subscribe unsubscribe dispose handle_open
    handle_message handle_error handle_close settle_closed fail_open settle_open
    notify_unexpected_disconnect close_socket
act-IsSettled ready_state t (waits none) q = ground arith
act-IsSettled ready_state t (waits (some ms)) q = ground arith
act-IsSettled ready_state t fires q = ground arith
act-IsSettled ready_state t (sends message) q = ground arith
act-IsSettled ready_state t (subscribes handler) q = ground arith
act-IsSettled ready_state t (unsubscribes handler) q = ground arith
act-IsSettled ready_state t disposes q = ground arith
act-IsSettled ready_state t opens q = ground arith
act-IsSettled ready_state t (receives none disposing) q = ground arith
act-IsSettled ready_state t (receives (some content) disposing) q =
    if_cases (λ (r : Transport × List Event). IsSettled r.0) t.listens
      (λ _. handle_message-IsSettled ready_state content disposing t q) (λ _. q)
act-IsSettled ready_state t fails q = ground arith
act-IsSettled ready_state t closes q = ground arith

run-IsSettled :
    (t : Transport) (actions : List (ℕ × Action)) → IsSettled t → IsSettled (run t actions).0
unfolding run
run-IsSettled t [] q = q
run-IsSettled t ((ready_state, action) ∷ rest) q =
    run-IsSettled (act ready_state t action).0 rest (act-IsSettled ready_state t action q)

constructed-IsSettled : (ready_state : ℕ) → IsSettled (constructed ready_state).0
unfolding constructed settle_open fail_open notify_unexpected_disconnect settle_closed
constructed-IsSettled ready_state = ground arith

dispose-IsQuiet :
    (ready_state : ℕ) (t : Transport) → IsSound t → IsSettled t → IsQuiet (dispose ready_state t).0
unfolding dispose fail_open close_socket settle_closed
dispose-IsQuiet ready_state t s q = ground arith

-- After a `dispose` that no fan-out is in the middle of, at whatever point and whatever comes
-- later, a transport stays disposed of and sends nothing, delivers nothing, tells its owner
-- nothing, closes no socket again and does not settle the open promise.
pub disposed-is_loud :
    (ready_state : ℕ) (before : List (ℕ × Action)) (dispose_state : ℕ) (later : List (ℕ × Action))
    → let t = (dispose dispose_state (from_construction ready_state before).0).0 in
      ((run t later).0.disposed ≡ true) × (count is_loud (run t later).1 ≡ 0)
disposed-is_loud ready_state before dispose_state later =
    let t = (from_construction ready_state before).0 in
    let q =
      dispose-IsQuiet dispose_state t (from_construction-IsSound ready_state before)
        (run-IsSettled (constructed ready_state).0 before (constructed-IsSettled ready_state)) in
    let s = run-StaysQuiet (dispose dispose_state t).0 later q in (s.0.0, s.1)
