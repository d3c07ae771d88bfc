-- ===== src/Client/Phase.antt =====
-- The phases of an execution and the events that report them, in apps/web/components/playground.tsx and
-- packages/contracts/src/index.ts.
use smart_c_playground.Prelude.{ℕ, Bool, true, false, Option, none, some, ◌++◌}
use smart_c_playground.Text.{Text, codes}
use smart_c_playground.Text.Decimal.{decimal}

-- ExecutionPhase
pub data Phase : Type 0 where
  idle creating queued compiling compile_failed running exited timed_out resource_limited : Phase
  cancelled sandbox_violation disconnected : Phase

-- The reason of an exit event.
pub data ExitReason : Type 0 where
  compile_failure time_out resource_limit cancel violation internal_error ended : ExitReason

pub record Exit : Type 0 where
  pub reason : ExitReason
  pub code : Option ℕ
  pub signal : Option ℕ

-- The phases that the executor reports.
pub data WirePhase : Type 0 where
  at_queue at_compiler at_running : WirePhase
  at_end : (reason : ExitReason) → WirePhase

-- ExecutionServerEvent
pub data ServerEvent : Type 0 where
  hello : (protocol : ℕ) → (session_id : Text) → ServerEvent
  phase_is : WirePhase → ServerEvent
  compiler_output : (text : Text) → ServerEvent
  exit : Exit → ServerEvent
  error : (message : Text) → ServerEvent
  pong : ServerEvent

-- getExitPhase
unfoldable pub get_exit_phase : ExitReason → Phase
get_exit_phase compile_failure = compile_failed
get_exit_phase time_out = timed_out
get_exit_phase resource_limit = resource_limited
get_exit_phase cancel = cancelled
get_exit_phase violation = sandbox_violation
get_exit_phase internal_error = exited
get_exit_phase ended = exited

unfoldable pub phase_of : WirePhase → Phase
phase_of at_queue = queued
phase_of at_compiler = compiling
phase_of at_running = running
phase_of (at_end reason) = get_exit_phase reason

-- ACTIVE_EXECUTION_PHASES.has(phase)
unfoldable pub is_active : Phase → Bool
is_active idle = false
is_active creating = true
is_active queued = true
is_active compiling = true
is_active compile_failed = false
is_active running = true
is_active exited = false
is_active timed_out = false
is_active resource_limited = false
is_active cancelled = false
is_active sandbox_violation = false
is_active disconnected = false

abbrev pub is_creating : Phase → Bool
is_creating idle = false
is_creating creating = true
is_creating queued = false
is_creating compiling = false
is_creating compile_failed = false
is_creating running = false
is_creating exited = false
is_creating timed_out = false
is_creating resource_limited = false
is_creating cancelled = false
is_creating sandbox_violation = false
is_creating disconnected = false

abbrev pub is_running : Phase → Bool
is_running idle = false
is_running creating = false
is_running queued = false
is_running compiling = false
is_running compile_failed = false
is_running running = true
is_running exited = false
is_running timed_out = false
is_running resource_limited = false
is_running cancelled = false
is_running sandbox_violation = false
is_running disconnected = false

unfoldable pub end_message : Option ℕ → Option ℕ → Text
end_message (some code) signal = codes "終了コード " ++ (decimal code ++ codes " で終了しました。")
end_message none (some signal) = codes "シグナル " ++ (decimal signal ++ codes " で終了しました。")
end_message none none = codes "プログラムが終了しました。"

-- formatExitMessage; codes and signals are natural numbers.
unfoldable pub format_exit_message : Exit → Text
unfolding end_message
format_exit_message e = elim e.reason [
  | compile_failure ↦ codes "コンパイルに失敗しました。上のエラーを確認してください。"
  | time_out ↦ codes "実行時間の上限に達したため停止しました。"
  | resource_limit ↦ codes "メモリ・プロセス数・出力量の上限に達しました。"
  | cancel ↦ codes "実行を停止しました。"
  | violation ↦ codes "許可されていない操作を検出したため停止しました。"
  | internal_error ↦ codes "実行環境で内部エラーが発生しました。"
  | ended ↦ end_message e.code e.signal
]
