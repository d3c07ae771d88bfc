-- ===== src/Transport/Once.antt =====
-- How often WebSocketLspTransport of apps/web/lib/client/lsp-transport.ts settles its promises and tells
-- its owner that the connection is lost.
use smart_c_playground.Prelude.{
  if◌then◌else◌, Bool, false, flag, ℕ, ◌≡◌, refl, true, false, not, ◌||◌, Option, none, some, List,
  [], ◌∷◌, String, arith, ◌==◌, if_cases,
}
use smart_c_playground.Text.{Text}
use smart_c_playground.Transport.{
  LspDisconnectReason, Event, socket_close, Transport, after, fail_open,
  notify_unexpected_disconnect, settle_closed, fresh, constructed, wait_until_open, fire_open_timer,
  send, subscribed, subscribe, unsubscribe, close_socket, dispose, fan_out, handle_open,
  handle_message, handle_error, report_close, handle_close, Action, waits, fires, sends, subscribes,
  unsubscribes, disposes, opens, receives, fails, closes, act, run,
}
use smart_c_playground.Transport.Accounts.{
  count, settles_open, settles_closed, notifies, IsSound, Accounts, IsNeutral, settle_open-Accounts,
  fail_open-Accounts, settle_closed-Accounts, after-Accounts, lost-Accounts, neutral-Accounts,
  same-Accounts,
}

send-IsNeutral :
    (ready_state : ℕ) (message : Text) (t : Transport) → IsNeutral (send ready_state message t)
unfolding send count
send-IsNeutral ready_state message t = ground arith

wait-Accounts :
    (timeout_ms : Option ℕ) (t : Transport) → IsSound t → Accounts t (wait_until_open timeout_ms t)
unfolding wait_until_open count
wait-Accounts none t s = ground arith
wait-Accounts (some ms) t s = ground arith

fire-Accounts : (t : Transport) → IsSound t → Accounts t (fire_open_timer t)
unfolding fire_open_timer
fire-Accounts t s =
    if_cases (Accounts t) t.open_timer
      (λ e.
        lost-Accounts "LSP WebSocketの接続がtimeoutしました。" LspDisconnectReason.timeout
          (record t { open_timer = false }) (s.0, s.1, λ _. refl))
      (λ _. same-Accounts t s)

close_socket-Accounts :
    (ready_state : ℕ) (t : Transport) → IsSound t → Accounts t (close_socket ready_state t)
unfolding close_socket count
close_socket-Accounts ready_state t s =
    if_cases (Accounts t) (ready_state == 0 || ready_state == 1)
      (λ _. neutral-Accounts t (socket_close 1000 "client dispose" ∷ []) s (refl, refl, refl))
      (λ _.
        if_cases (Accounts t) (ready_state == 3) (λ _. settle_closed-Accounts t s)
          (λ _. same-Accounts t s))

dispose-Accounts :
    (ready_state : ℕ) (t : Transport) → IsSound t → Accounts t (dispose ready_state t)
unfolding dispose
dispose-Accounts ready_state t s =
    let u : Transport = record t { disposed = true; subscribers = []; listens = false } in
    let message : String = "LSP WebSocketの接続待機中にTransportが破棄されました。" in
    if_cases (Accounts t) t.disposed (λ _. same-Accounts t s)
      (λ _.
        after-Accounts u (fail_open message u) (close_socket ready_state)
          (fail_open-Accounts message u s) (close_socket-Accounts ready_state))

-- A delivery is of none of the three kinds.
fan_out-Accounts :
    (ready_state : ℕ) (content : Text) (disposing : ℕ → Bool) (subscribers : List ℕ) (t : Transport)
    → IsSound t
    → Accounts t (fan_out ready_state content disposing subscribers t)
unfolding fan_out count
fan_out-Accounts ready_state content disposing [] t s = same-Accounts t s
fan_out-Accounts ready_state content disposing (subscriber ∷ rest) t s =
    let told : Transport × List Event =
      if disposing subscriber then dispose ready_state t else (t, []) in
    let a : Accounts t told =
      if_cases (Accounts t) (disposing subscriber) (λ _. dispose-Accounts ready_state t s)
        (λ _. same-Accounts t s) in
    let b =
      after-Accounts t told (fan_out ready_state content disposing rest) a
        (fan_out-Accounts ready_state content disposing rest) in
    (b.0, omega (arith, b.1), omega (arith, b.2), omega (arith, b.3))

handle_message-Accounts :
    (ready_state : ℕ) (content : Option Text) (disposing : ℕ → Bool) (t : Transport)
    → IsSound t
    → Accounts t (handle_message ready_state content disposing t)
unfolding handle_message
handle_message-Accounts ready_state none disposing t s = same-Accounts t s
handle_message-Accounts ready_state (some content) disposing t s =
    if_cases (Accounts t) t.disposed (λ _. same-Accounts t s)
      (λ _. fan_out-Accounts ready_state content disposing t.subscribers t s)

handle_open-Accounts : (t : Transport) → IsSound t → Accounts t (handle_open t)
unfolding handle_open
handle_open-Accounts t s =
    if_cases (Accounts t) t.disposed (λ _. same-Accounts t s) (λ _. settle_open-Accounts t s)

handle_error-Accounts : (t : Transport) → IsSound t → Accounts t (handle_error t)
unfolding handle_error
handle_error-Accounts t s =
    if_cases (Accounts t) t.disposed (λ _. same-Accounts t s)
      (λ _. lost-Accounts "LSP WebSocketの接続に失敗しました。" LspDisconnectReason.error t s)

report_close-Accounts : (t : Transport) → IsSound t → Accounts t (report_close t)
unfolding fail_open notify_unexpected_disconnect
report_close-Accounts t s =
    if_cases (Accounts t) t.disposed (λ _. same-Accounts t s)
      (λ _. lost-Accounts "LSP WebSocketが接続前に切断されました。" LspDisconnectReason.close t s)

handle_close-Accounts : (t : Transport) → IsSound t → Accounts t (handle_close t)
unfolding handle_close
handle_close-Accounts t s =
    after-Accounts t (settle_closed t) report_close (settle_closed-Accounts t s)
      report_close-Accounts

subscribe-Accounts :
    (handler : ℕ) (t : Transport) → IsSound t → Accounts t (subscribe handler t, [])
unfolding subscribe
subscribe-Accounts handler t s =
    if_cases (λ (u : Transport). Accounts t (u, [])) (subscribed t.subscribers handler)
      (λ _. same-Accounts t s) (λ _. same-Accounts t s)

pub act-Accounts :
    (ready_state : ℕ) (t : Transport) (action : Action)
    → IsSound t
    → Accounts t (act ready_state t action)
unfolding act unsubscribe
act-Accounts ready_state t (waits timeout_ms) s = wait-Accounts timeout_ms t s
act-Accounts ready_state t fires s = fire-Accounts t s
act-Accounts ready_state t (sends message) s =
    neutral-Accounts t (send ready_state message t) s (send-IsNeutral ready_state message t)
act-Accounts ready_state t (subscribes handler) s = subscribe-Accounts handler t s
act-Accounts ready_state t (unsubscribes handler) s = same-Accounts t s
act-Accounts ready_state t disposes s = dispose-Accounts ready_state t s
act-Accounts ready_state t opens s =
    if_cases (Accounts t) t.listens (λ _. handle_open-Accounts t s) (λ _. same-Accounts t s)
act-Accounts ready_state t (receives content disposing) s =
    if_cases (Accounts t) t.listens (λ _. handle_message-Accounts ready_state content disposing t s)
      (λ _. same-Accounts t s)
act-Accounts ready_state t fails s =
    if_cases (Accounts t) t.listens (λ _. handle_error-Accounts t s) (λ _. same-Accounts t s)
act-Accounts ready_state t closes s =
    if_cases (Accounts t) t.listens_close (λ _. handle_close-Accounts t s) (λ _. same-Accounts t s)

pub run-Accounts :
    (t : Transport) (actions : List (ℕ × Action)) → IsSound t → Accounts t (run t actions)
unfolding run count
run-Accounts t [] s = same-Accounts t s
run-Accounts t ((ready_state, action) ∷ rest) s =
    after-Accounts t (act ready_state t action) (λ u. run u rest)
      (act-Accounts ready_state t action s) (λ u h. run-Accounts u rest h)

constructed-Accounts : (ready_state : ℕ) → Accounts fresh (constructed ready_state)
unfolding constructed
constructed-Accounts ready_state =
    let s : IsSound fresh = (refl, refl, λ _. refl) in
    let message : String = "LSP WebSocketは接続を開始できない状態です。" in
    let lost =
      after (fail_open message fresh) (notify_unexpected_disconnect LspDisconnectReason.close) in
    let lost-Accounts_fresh : Accounts fresh lost =
      lost-Accounts message LspDisconnectReason.close fresh s in
    if_cases (Accounts fresh) (ready_state == 1) (λ _. settle_open-Accounts fresh s)
      (λ _.
        if_cases (Accounts fresh) (ready_state == 0) (λ _. same-Accounts fresh s)
          (λ _.
            if_cases (Accounts fresh) (ready_state == 3)
              (λ _.
                after-Accounts fresh lost settle_closed lost-Accounts_fresh settle_closed-Accounts)
              (λ _. lost-Accounts_fresh)))

-- A transport from its construction on.
abbrev pub from_construction : ℕ → List (ℕ × Action) → Transport × List Event
from_construction ready_state actions = after (constructed ready_state) (λ t. run t actions)

pub from_construction-IsSound :
    (ready_state : ℕ) (actions : List (ℕ × Action))
    → IsSound (from_construction ready_state actions).0
from_construction-IsSound ready_state actions =
    (run-Accounts (constructed ready_state).0 actions (constructed-Accounts ready_state).0).0

-- From its construction on, whatever the socket, the timer and the client do and in whatever order,
-- a transport settles its open promise once if its flag says so and else never, the same for its
-- closed promise, and it tells its owner of a lost connection at most once, exactly if the flag for
-- it is set.
pub from_construction_once :
    (ready_state : ℕ) (actions : List (ℕ × Action))
    → (count settles_open (from_construction ready_state actions).1
        ≡ flag (from_construction ready_state actions).0.open_settled)
      × (count settles_closed (from_construction ready_state actions).1
          ≡ flag (not (from_construction ready_state actions).0.resolve_closed))
      × (count notifies (from_construction ready_state actions).1
          ≡ flag (from_construction ready_state actions).0.unavailable_notified)
from_construction_once ready_state actions =
    let a =
      after-Accounts fresh (constructed ready_state) (λ t. run t actions)
        (constructed-Accounts ready_state) (λ t s. run-Accounts t actions s) in
    (omega (arith, a.1), omega (arith, a.2), omega (arith, a.3))
