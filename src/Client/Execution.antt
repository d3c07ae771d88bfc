-- ===== src/Client/Execution.antt =====
-- The execution of a program in apps/web/components/playground.tsx: the request that creates it, the socket
-- that follows, and the phases that the user sees.

pub mod Valid
pub mod Stale
use smart_c_playground.Prelude.{
  ℕ, min, max, ◌≡◌, Bool, true, false, not, ◌&&◌, ◌||◌, Option, none, some, List, [], ◌∷◌, ◌++◌,
  String, ◌==◌, if◌then◌else◌,
}
use smart_c_playground.Text.{Text, codes, text_eq}
use smart_c_playground.Text.Decimal.{decimal}
use smart_c_playground.Client.Phase.{
  Phase, idle, creating, queued, compiling, compile_failed, running, exited, timed_out,
  resource_limited, cancelled, sandbox_violation, disconnected, ExitReason, compile_failure,
  time_out, resource_limit, cancel, violation, internal_error, ended, Exit, WirePhase, at_queue,
  at_compiler, at_running, at_end, ServerEvent, hello, phase_is, compiler_output, exit, error, pong,
  get_exit_phase, phase_of, is_active, is_creating, is_running, end_message, format_exit_message,
}

-- What the component does to its surroundings.
pub data Effect : Type 0 where
  posted : (request : ℕ) → Effect
  aborted : (request : ℕ) → Effect
  opened : (socket : ℕ) → Effect
  closed : (socket close_code : ℕ) → Effect
  sent_terminate : Effect
  sent_size : (cols rows : ℕ) → Effect
  sent_input : (text : Text) → Effect
  cleared : Effect
  focused : Effect
  wrote : (text : Text) → Effect
  said : (message : Text) → Effect

-- The refs of the component. A request is known by its AbortController, and `request_aborted` is of that;
-- `ping_timer` says that the timer is set.
pub record Execution : Type 0 where
  pub phase : Phase
  pub socket : Option ℕ
  pub request : Option ℕ
  pub request_aborted : Bool
  pub ping_timer : Bool
  pub expected_close : Bool

unfoldable pub initial : Execution
initial = record {
  phase = idle;
  socket = none;
  request = none;
  request_aborted = false;
  ping_timer = false;
  expected_close = false;
}

abbrev pub Step : Type 0
Step = Execution × List Effect

pub close_found : Execution → Option ℕ → (is_open : Bool) → Step
close_found e none is_open = (record e { ping_timer = false; socket = none }, [])
close_found e (some socket) is_open =
    if is_open
    then (
      record e { ping_timer = false; socket = none; expected_close = true },
      closed socket 1000 ∷ [],
    )
    else (record e { ping_timer = false; socket = none }, [])

-- closeExecutionSocket; `is_open` says that the socket is not yet closing.
unfoldable pub close_execution_socket : Execution → (is_open : Bool) → Step
unfolding close_found
close_execution_socket e is_open = close_found e e.socket is_open

-- run, up to its wait for the response.
unfoldable pub start_run : Execution → (is_open : Bool) → (controller : ℕ) → Step
start_run e is_open controller =
    let (free, effects) = close_execution_socket e is_open in
    if is_active e.phase then (e, []) else (
      record free {
        expected_close = false;
        phase = creating;
        request = some controller;
        request_aborted = false;
      },
      effects ++ (said [] ∷ cleared ∷ wrote (codes "[実行環境を準備しています]") ∷ posted controller ∷ []),
    )

-- value === number, for a ref that may hold null.
abbrev pub is_current : Option ℕ → ℕ → Bool
is_current none number = false
is_current (some found) number = found == number

-- run, once its request is answered; `socket` is the one it opens.
unfoldable pub finish_run : Execution → (controller socket : ℕ) → Step
finish_run e controller socket =
    if is_current e.request controller
    then if e.request_aborted
      then (record e { request = none }, [])
      else (record e { socket = some socket; request = none }, opened socket ∷ [])
    else (e, [])

-- run, once its request fails; `is_abort` says that the error is an AbortError.
unfoldable pub fail_run : Execution → (controller : ℕ) → (is_abort : Bool) → (message : Text) → Step
fail_run e controller is_abort message =
    if is_current e.request controller
    then if is_abort then (record e { phase = cancelled; request = none }, []) else (
      record e { phase = disconnected; request = none },
      said message ∷ wrote (codes "\r\n[" ++ (message ++ codes "]")) ∷ [],
    )
    else (e, [])

-- The lines for a new phase; `previous` is the phase before. The size is that of the terminal.
unfoldable pub announce : WirePhase → (previous : Phase) → (cols rows : ℕ) → List Effect
announce at_queue previous cols rows = elim previous [
  | queued ↦ []
  | _ ↦ wrote (codes "[実行待ちです]") ∷ []
]
announce at_compiler previous cols rows = elim previous [
  | compiling ↦ []
  | _ ↦ wrote (codes "[コンパイル中]") ∷ []
]
announce at_running previous cols rows = elim previous [
  | running ↦ []
  | _ ↦ sent_size cols rows ∷ wrote (codes "[実行開始]\r\n") ∷ focused ∷ []
]
announce (at_end reason) previous cols rows = []

-- handleExecutionEvent
unfoldable pub handle_execution_event :
    Execution → (socket : ℕ) → (session_id : Text) → (cols rows : ℕ) → ServerEvent → Step
unfolding phase_of announce get_exit_phase format_exit_message
handle_execution_event e socket session_id cols rows (hello protocol id) =
    if not (protocol == 1) || not (text_eq id session_id)
    then (
      record e { phase = disconnected },
      wrote (codes "\r\n[実行セッションを確認できませんでした]") ∷ closed socket 4002 ∷ [],
    )
    else (record e { ping_timer = true }, [])
handle_execution_event e socket session_id cols rows (phase_is wire) =
    (record e { phase = phase_of wire }, announce wire e.phase cols rows)
handle_execution_event e socket session_id cols rows (compiler_output text) = (e, wrote text ∷ [])
handle_execution_event e socket session_id cols rows (exit x) = (
  record e { phase = get_exit_phase x.reason; expected_close = true; ping_timer = false },
  wrote (codes "\r\n[" ++ (format_exit_message x ++ codes "]")) ∷ [],
)
handle_execution_event e socket session_id cols rows (error message) = (
  record e { phase = disconnected },
  wrote (codes "\r\n[実行エラー: " ++ (message ++ codes "]")) ∷ said message ∷ [],
)
handle_execution_event e socket session_id cols rows pong = (e, [])

-- onclose of a socket.
unfoldable pub socket_closes : Execution → (socket : ℕ) → Step
socket_closes e socket =
    if is_current e.socket socket
    then if not e.expected_close && is_active e.phase
      then (
        record e {
          ping_timer = false;
          socket = none;
          phase = disconnected;
          expected_close = false;
        },
        wrote (codes "\r\n[実行環境との接続が切れました]") ∷ [],
      )
      else (record e { ping_timer = false; socket = none; expected_close = false }, [])
    else (e, [])

-- onerror of a socket.
unfoldable pub socket_fails : Execution → (socket : ℕ) → Step
socket_fails e socket =
    if is_current e.socket socket then (e, said (codes "実行環境との通信でエラーが発生しました。") ∷ []) else (e, [])

pub abort_found : Option ℕ → List Effect
abort_found none = []
abort_found (some controller) = aborted controller ∷ []

-- sendJsonMessage returns whether it has sent: there is a socket, and it is open.
abbrev pub can_send : Option ℕ → (is_open : Bool) → Bool
can_send none is_open = false
can_send (some socket) is_open = is_open

-- stop
unfoldable pub stop : Execution → (is_open : Bool) → Step
unfolding abort_found
stop e is_open =
    if is_creating e.phase
    then (
      record e { phase = cancelled; request_aborted = true },
      abort_found e.request ++ wrote (codes "\r\n[実行準備を停止しました]") ∷ [],
    )
    else if can_send e.socket is_open
    then (e, sent_terminate ∷ [])
    else (record e { phase = cancelled }, wrote (codes "\r\n[実行を停止しました]") ∷ [])

-- handleTerminalInput
unfoldable pub handle_terminal_input : Execution → (is_open : Bool) → Text → List Effect
handle_terminal_input e is_open text =
    if not (is_running e.phase) || not (can_send e.socket is_open) then [] else sent_input text ∷ []

-- handleTerminalResize
unfoldable pub handle_terminal_resize : Execution → (is_open : Bool) → (cols rows : ℕ) → List Effect
handle_terminal_resize e is_open cols rows =
    if is_running e.phase && can_send e.socket is_open
    then sent_size (min 240 (max 20 cols)) (min 80 (max 5 rows)) ∷ []
    else []

-- The cleanup when the component is taken away.
unfoldable pub unmount : Execution → (is_open : Bool) → Step
unfolding abort_found
unmount e is_open =
    let (last, effects) = close_execution_socket e is_open in
    (record last { request_aborted = true }, abort_found e.request ++ effects)

-- What may happen while the component is there.
pub data Action : Type 0 where
  runs : (controller : ℕ) → Action
  answers : (controller socket : ℕ) → Action
  refuses : (controller : ℕ) → (is_abort : Bool) → (message : Text) → Action
  receives : (socket : ℕ) → (session_id : Text) → (cols rows : ℕ) → ServerEvent → Action
  outputs : (socket : ℕ) → (text : Text) → Action
  loses : (socket : ℕ) → Action
  errs : (socket : ℕ) → Action
  stops : Action
  types : (text : Text) → Action
  resizes : (cols rows : ℕ) → Action

-- An action, with whether the current socket is open.
unfoldable pub act : Execution → (is_open : Bool) → Action → Step
unfolding start_run finish_run fail_run handle_execution_event socket_closes socket_fails stop
act e is_open (runs controller) = start_run e is_open controller
act e is_open (answers controller socket) = finish_run e controller socket
act e is_open (refuses controller is_abort message) = fail_run e controller is_abort message
act e is_open (receives socket session_id cols rows event) =
    if is_current e.socket socket
    then handle_execution_event e socket session_id cols rows event
    else (e, [])
act e is_open (outputs socket text) =
    if is_current e.socket socket then (e, wrote text ∷ []) else (e, [])
act e is_open (loses socket) = socket_closes e socket
act e is_open (errs socket) = socket_fails e socket
act e is_open stops = stop e is_open
act e is_open (types text) = (e, handle_terminal_input e is_open text)
act e is_open (resizes cols rows) = (e, handle_terminal_resize e is_open cols rows)

unfoldable pub run : Execution → List (Bool × Action) → Step
run e [] = (e, [])
run e ((is_open, action) ∷ rest) =
    let (next, effects) = act e is_open action in
    let (last, more) = run next rest in (last, effects ++ more)
