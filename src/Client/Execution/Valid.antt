-- ===== src/Client/Execution/Valid.antt =====
-- What holds of the refs of apps/web/components/playground.tsx at any time.
use smart_c_playground.Prelude.{
  ℕ, ◌≡◌, refl, Bool, true, false, ◌||◌, Option, none, some, List, [], ◌∷◌, arith, if_cases,
  is_some,
}
use mathlib.Core.Bool.{false≢true}
use smart_c_playground.Text.{Text}
use smart_c_playground.Client.Phase.{
  Phase, ExitReason, compile_failure, time_out, resource_limit, cancel, violation, internal_error,
  ended, WirePhase, at_queue, at_compiler, at_running, at_end, ServerEvent, hello, phase_is,
  compiler_output, exit, error, pong, get_exit_phase, phase_of, is_active, is_creating,
}
use smart_c_playground.Client.Execution.{
  Execution, initial, Step, close_found, close_execution_socket, start_run, is_current, finish_run,
  fail_run, handle_execution_event, socket_closes, socket_fails, stop, Action, runs, answers,
  refuses, receives, outputs, loses, errs, stops, types, resizes, act, run,
}

-- The keepalive timer runs only beside a socket. A request and a socket are never there together. A request
-- that is not aborted means that the execution is being created; and while it is, there is a request or a
-- socket, nothing is aborted, and no close of the socket is expected.
pub record IsValid (e : Execution) : Type 0 where
  pub ping : e.ping_timer ≡ true → is_some e.socket ≡ true
  pub one : is_some e.request ≡ true → is_some e.socket ≡ false
  pub requested : is_some e.request ≡ true → e.request_aborted ≡ false → is_creating e.phase ≡ true
  pub creating : is_creating e.phase ≡ true → (is_some e.request || is_some e.socket) ≡ true
  pub unaborted : is_creating e.phase ≡ true → e.request_aborted ≡ false
  pub unexpected : is_creating e.phase ≡ true → e.expected_close ≡ false

current-some :
    (found : Option ℕ) (number : ℕ) → is_current found number ≡ true → is_some found ≡ true
current-some none number h = h
current-some (some other) number h = refl

exit_phase-creating : (reason : ExitReason) → is_creating (get_exit_phase reason) ≡ false
unfolding get_exit_phase
exit_phase-creating compile_failure = refl
exit_phase-creating time_out = refl
exit_phase-creating resource_limit = refl
exit_phase-creating cancel = refl
exit_phase-creating violation = refl
exit_phase-creating internal_error = refl
exit_phase-creating ended = refl

wire_phase-creating : (wire : WirePhase) → is_creating (phase_of wire) ≡ false
unfolding phase_of
wire_phase-creating at_queue = refl
wire_phase-creating at_compiler = refl
wire_phase-creating at_running = refl
wire_phase-creating (at_end reason) = exit_phase-creating reason

handle-IsValid :
    (e : Execution) (socket : ℕ) (session_id : Text) (cols rows : ℕ) (event : ServerEvent)
    → IsValid e
    → is_some e.socket ≡ true
    → IsValid (handle_execution_event e socket session_id cols rows event).0
unfolding handle_execution_event
handle-IsValid e socket session_id cols rows (hello protocol id) v s = ground (arith, v, s)
handle-IsValid e socket session_id cols rows (phase_is wire) v s =
    ground (arith, v, s, wire_phase-creating wire)
handle-IsValid e socket session_id cols rows (compiler_output text) v s = v
handle-IsValid e socket session_id cols rows (exit x) v s =
    ground (arith, v, s, exit_phase-creating x.reason)
handle-IsValid e socket session_id cols rows (error message) v s = ground (arith, v, s)
handle-IsValid e socket session_id cols rows pong v s = v

pub close_found-facts :
    (e : Execution) (socket : Option ℕ) (is_open : Bool)
    → ((close_found e socket is_open).0.ping_timer ≡ false)
      × ((close_found e socket is_open).0.socket ≡ none)
unfolding close_found
close_found-facts e none is_open = (refl, refl)
close_found-facts e (some socket) is_open = ground arith

start_run-IsValid :
    (e : Execution) (is_open : Bool) (controller : ℕ)
    → IsValid e
    → IsValid (start_run e is_open controller).0
unfolding start_run close_execution_socket
start_run-IsValid e is_open controller v =
    let facts = close_found-facts e e.socket is_open in
    if_cases (λ (s : Step). IsValid s.0) (is_active e.phase) (λ _. v) (λ _. ground (arith, facts))

creating-is_active : (phase : Phase) → is_creating phase ≡ true → is_active phase ≡ true
unfolding is_active
creating-is_active Phase.idle h = h
creating-is_active Phase.creating h = refl
creating-is_active Phase.queued h = refl
creating-is_active Phase.compiling h = refl
creating-is_active Phase.compile_failed h = h
creating-is_active Phase.running h = refl
creating-is_active Phase.exited h = h
creating-is_active Phase.timed_out h = h
creating-is_active Phase.resource_limited h = h
creating-is_active Phase.cancelled h = h
creating-is_active Phase.sandbox_violation h = h
creating-is_active Phase.disconnected h = h

act-IsValid :
    (e : Execution) (is_open : Bool) (action : Action)
    → IsValid e
    → IsValid (act e is_open action).0
unfolding act finish_run fail_run socket_closes socket_fails stop
act-IsValid e is_open (runs controller) v = start_run-IsValid e is_open controller v
act-IsValid e is_open (answers controller socket) v = ground (arith, v)
act-IsValid e is_open (refuses controller is_abort message) v = ground (arith, v)
act-IsValid e is_open (receives socket session_id cols rows event) v =
    if_cases (λ (s : Step). IsValid s.0) (is_current e.socket socket)
      (λ c. handle-IsValid e socket session_id cols rows event v (current-some e.socket socket c))
      (λ _. v)
act-IsValid e is_open (outputs socket text) v =
    if_cases (λ (s : Step). IsValid s.0) (is_current e.socket socket) (λ _. v) (λ _. v)
act-IsValid e is_open (loses socket) v =
    ground (arith, v, current-some e.socket socket, creating-is_active e.phase)
act-IsValid e is_open (errs socket) v =
    if_cases (λ (s : Step). IsValid s.0) (is_current e.socket socket) (λ _. v) (λ _. v)
act-IsValid e is_open stops v = ground (arith, v)
act-IsValid e is_open (types text) v = v
act-IsValid e is_open (resizes cols rows) v = v

-- From a valid state, in any order of runs, stops, answers, messages and closes: the keepalive
-- timer runs only beside a socket; a request and a socket are never there together; a request that
-- is not aborted means that the execution is being created; and while it is, there is a request or
-- a socket, nothing is aborted and no close of the socket is expected.
pub run-IsValid :
    (e : Execution) (actions : List (Bool × Action)) → IsValid e → IsValid (run e actions).0
unfolding run
run-IsValid e [] v = v
run-IsValid e ((is_open, action) ∷ rest) v =
    run-IsValid (act e is_open action).0 rest (act-IsValid e is_open action v)

pub initial-IsValid : IsValid initial
unfolding initial
initial-IsValid = record {
  ping = λ h. absurd (false≢true h);
  one = λ h. absurd (false≢true h);
  requested = λ h. absurd (false≢true h);
  creating = λ h. absurd (false≢true h);
  unaborted = λ h. absurd (false≢true h);
  unexpected = λ h. absurd (false≢true h);
}
