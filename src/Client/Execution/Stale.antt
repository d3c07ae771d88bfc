-- ===== src/Client/Execution/Stale.antt =====
-- Events of executions that apps/web/components/playground.tsx has left behind, and its button to stop.
use smart_c_playground.Prelude.{
  sym, subst, none≢some, ℕ, ◌≡◌, ◌≢◌, refl, Bool, true, false, Option, none, some, List, [], ◌∷◌,
  arith,
}
use smart_c_playground.Text.{Text}
use smart_c_playground.Client.Phase.{
  Phase, creating, is_active, is_running, WirePhase, phase_is, is_creating, cancelled, phase_of,
}
use smart_c_playground.Client.Execution.Valid.{close_found-facts}
use smart_c_playground.Client.Execution.{
  Effect, aborted, sent_terminate, wrote, Execution, abort_found, is_current, finish_run, fail_run,
  handle_execution_event, socket_closes, socket_fails, stop, Action, runs, answers, refuses,
  receives, outputs, loses, errs, act, run, start_run, close_execution_socket,
  handle_terminal_input, handle_terminal_resize,
}

-- What may come after a run has begun that is neither the answer to its own request nor a stop. Messages
-- come from sockets of earlier runs, for the new one has none yet.
abbrev pub IsForeign : (controller : ℕ) → Action → Type 0
IsForeign controller (runs other) = Unit
IsForeign controller (answers other socket) = other ≢ controller
IsForeign controller (refuses other is_abort message) = other ≢ controller
IsForeign controller (receives socket session_id cols rows event) = Unit
IsForeign controller (outputs socket text) = Unit
IsForeign controller (loses socket) = Unit
IsForeign controller (errs socket) = Unit
IsForeign controller Action.stops = ⊥
IsForeign controller (Action.types text) = Unit
IsForeign controller (Action.resizes cols rows) = Unit

-- A run waits for the answer to its request, with no socket.
abbrev Waits : (controller : ℕ) → Execution → Type 0
Waits controller e = (e.phase ≡ creating) × (e.socket ≡ none) × (e.request ≡ some controller)

start_run-Waits :
    (e : Execution) (is_open : Bool) (controller : ℕ)
    → is_active e.phase ≡ false
    → Waits controller (start_run e is_open controller).0
unfolding start_run close_execution_socket
start_run-Waits e is_open controller h =
    let (timer, socket) = close_found-facts e e.socket is_open in rw h (refl, socket, refl)

no_socket-is_current :
    (found : Option ℕ) (number : ℕ) → found ≡ none → is_current found number ≡ false
no_socket-is_current none number h = refl
no_socket-is_current (some found) number h = absurd (none≢some (sym h))

other-is_current :
    (found : Option ℕ) (controller other : ℕ)
    → found ≡ some controller
    → other ≢ controller
    → is_current found other ≡ false
other-is_current none controller other h d = refl
other-is_current (some found) controller other h d = ground (arith, h, d)

Waits-is_active : (e : Execution) (controller : ℕ) → Waits controller e → is_active e.phase ≡ true
unfolding is_active
Waits-is_active e controller w = subst (λ (p : Phase). is_active p ≡ true) (sym w.0) refl

Waits-is_running :
    (e : Execution) (controller : ℕ) → Waits controller e → is_running e.phase ≡ false
Waits-is_running e controller w = subst (λ (p : Phase). is_running p ≡ false) (sym w.0) refl

act-IsForeign :
    (controller : ℕ) (e : Execution) (is_open : Bool) (action : Action)
    → Waits controller e
    → IsForeign controller action
    → act e is_open action ≡ (e, [])
unfolding act start_run finish_run fail_run socket_closes socket_fails handle_terminal_input
    handle_terminal_resize
act-IsForeign controller e is_open (runs other) w f = rw (Waits-is_active e controller w) refl
act-IsForeign controller e is_open (answers other socket) w f =
    rw (other-is_current e.request controller other w.2 f) refl
act-IsForeign controller e is_open (refuses other is_abort message) w f =
    rw (other-is_current e.request controller other w.2 f) refl
act-IsForeign controller e is_open (receives socket session_id cols rows event) w f =
    rw (no_socket-is_current e.socket socket w.1) refl
act-IsForeign controller e is_open (outputs socket text) w f =
    rw (no_socket-is_current e.socket socket w.1) refl
act-IsForeign controller e is_open (loses socket) w f =
    rw (no_socket-is_current e.socket socket w.1) refl
act-IsForeign controller e is_open (errs socket) w f =
    rw (no_socket-is_current e.socket socket w.1) refl
act-IsForeign controller e is_open Action.stops w f = absurd f
act-IsForeign controller e is_open (Action.types text) w f =
    rw (Waits-is_running e controller w) refl
act-IsForeign controller e is_open (Action.resizes cols rows) w f =
    rw (Waits-is_running e controller w) refl

abbrev pub AreForeign : (controller : ℕ) → List (Bool × Action) → Type 0
AreForeign controller [] = Unit
AreForeign controller ((is_open, action) ∷ rest) =
    IsForeign controller action × AreForeign controller rest

run-AreForeign :
    (controller : ℕ) (e : Execution) (actions : List (Bool × Action))
    → Waits controller e
    → AreForeign controller actions
    → run e actions ≡ (e, [])
unfolding run
run-AreForeign controller e [] w f = refl
run-AreForeign controller e ((is_open, action) ∷ rest) w f =
    rw (act-IsForeign controller e is_open action w f.0, run)
      (rw (run-AreForeign controller e rest w f.1) refl)

-- From the start of a run, whatever was going on before, until its own request is answered or it is
-- stopped, nothing changes and nothing is sent: not by further runs, by answers to earlier
-- requests, by any messages, errors and closes of earlier sockets, or by typing and resizing, in
-- any number and order. The execution was not active before the start.
pub new_run_ignores_earlier :
    (e : Execution) (is_open : Bool) (controller : ℕ) (actions : List (Bool × Action))
    → is_active e.phase ≡ false
    → AreForeign controller actions
    → run (start_run e is_open controller).0 actions ≡ ((start_run e is_open controller).0, [])
new_run_ignores_earlier e is_open controller actions h f =
    run-AreForeign controller (start_run e is_open controller).0 actions
      (start_run-Waits e is_open controller h) f

-- Whether the executor is told to stop, or the request for it is taken back.
unfoldable pub calls_off : List Effect → Bool
calls_off [] = false
calls_off (sent_terminate ∷ effects) = true
calls_off (aborted request ∷ effects) = true
calls_off (Effect.posted request ∷ effects) = calls_off effects
calls_off (Effect.opened socket ∷ effects) = calls_off effects
calls_off (Effect.closed socket close_code ∷ effects) = calls_off effects
calls_off (Effect.sent_size cols rows ∷ effects) = calls_off effects
calls_off (Effect.sent_input text ∷ effects) = calls_off effects
calls_off (Effect.cleared ∷ effects) = calls_off effects
calls_off (Effect.focused ∷ effects) = calls_off effects
calls_off (wrote text ∷ effects) = calls_off effects
calls_off (Effect.said message ∷ effects) = calls_off effects

-- If the execution is being created, its request is answered and its socket is there, then `stop`
-- shows it as cancelled, but neither aborts a request nor sends `terminate`, keeps the socket, and
-- the next phase that the executor reports is taken up again.
pub stop_before_first_phase :
    (e : Execution) (is_open : Bool) (socket : ℕ) (session_id : Text) (cols rows : ℕ)
    (wire : WirePhase)
    → is_creating e.phase ≡ true
    → e.request ≡ none
    → e.socket ≡ some socket
    → (calls_off (stop e is_open).1 ≡ false)
      × ((stop e is_open).0.socket ≡ some socket)
      × ((stop e is_open).0.phase ≡ cancelled)
      × ((act
            (stop e is_open).0
            is_open
            (receives socket session_id cols rows (phase_is wire))).0.phase
          ≡ phase_of wire)
unfolding stop act handle_execution_event abort_found calls_off
stop_before_first_phase e is_open socket session_id cols rows wire c r s = ground (arith, c, r, s)
