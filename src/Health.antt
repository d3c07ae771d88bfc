-- ===== src/Health.antt =====
-- ClangdHealthProbe of apps/lsp/src/health.ts, and stopChildProcess of apps/lsp/src/session-manager.ts: the
-- processes that the LSP service starts and waits for.
pub mod Settled
use smart_c_playground.Prelude.{
  ℕ, ◌+◌, ◌≡◌, Bool, true, false, not, ◌&&◌, ◌||◌, Option, none, some, List, [], ◌∷◌, ◌++◌, ◌==◌,
  if◌then◌else◌, is_some,
}
use smart_c_playground.Text.{Text, codes}
use smart_c_playground.Clangd.{ProcessOptions, ProcessSpec, create_clangd_process_spec}
use smart_c_playground.Manager.State.{Paths}

-- A probe of one process: `settled` of finish, whether its timer is set, and what its promise is resolved to.
pub record Probe : Type 0 where
  pub settled : Bool
  pub timer : Bool
  pub killed : Bool
  pub result : List Bool

-- probeProcess, before anything has happened.
unfoldable pub started : Probe
started = record { settled = false; timer = true; killed = false; result = [] }

unfoldable pub finish : Probe → (ready : Bool) → Probe
finish p ready =
    if p.settled then p else record p { settled = true; timer = false; result = ready ∷ p.result }

-- What happens to the process, or to its timer. An exit code is `none` where a signal has ended it.
pub data ProbeEvent : Type 0 where
  times_out : ProbeEvent
  fails : ProbeEvent
  exits : (code : Option ℕ) → ProbeEvent

abbrev pub is_zero : Option ℕ → Bool
is_zero none = false
is_zero (some code) = code == 0

unfoldable pub observe : Probe → ProbeEvent → Probe
unfolding finish
observe p times_out =
    if p.timer then finish (record p { killed = true; timer = false }) false else p
observe p fails = finish p false
observe p (exits code) = finish p (is_zero code)

unfoldable pub observe_all : Probe → List ProbeEvent → Probe
observe_all p [] = p
observe_all p (event ∷ rest) = observe_all (observe p event) rest

-- The fields of ClangdHealthProbe that change. `checking` is #checking !== null, and `interval` the number
-- of intervals that are set.
pub record Health : Type 0 where
  pub ready : Bool
  pub checked_at : Option Text
  pub interval : Bool
  pub checking : Bool

unfoldable pub new_health : Health
new_health = record { ready = false; checked_at = none; interval = false; checking = false }

-- check up to its wait, and whether it starts a process; otherwise it waits for the check in progress.
unfoldable pub begin_check : Health → Health × Bool
begin_check h = if h.checking then (h, false) else (record h { checking = true }, true)

-- The end of #runCheck and of check: the probe's result, and the time.
unfoldable pub end_check : Health → (ready : Bool) → (now : Text) → Health
end_check h ready now = record h { ready = ready; checked_at = some now; checking = false }

-- The end of start, and stop.
unfoldable pub set_interval : Health → Health
set_interval h = record h { interval = true }

unfoldable pub stop : Health → Health
stop h = record h { interval = false }

-- The command of a check, for the options of the probe.
unfoldable pub probe_spec :
    Paths
    → (clangd_path workspace_root : Text) → (sandbox_path limiter_path : Option Text) → ProcessSpec
probe_spec paths clangd_path workspace_root sandbox_path limiter_path =
    create_clangd_process_spec paths (record {
      clangd_path = clangd_path;
      workspace_path = paths.join workspace_root (codes ".health-probe");
      sandbox_path = sandbox_path;
      limiter_path = limiter_path;
      clangd_arguments = some (codes "--version" ∷ []);
      hidden_path_for_smoke_test =
          if is_some sandbox_path
          then some (paths.join workspace_root (codes ".sandbox-hidden-sentinel"))
          else none;
    })

pub data Signal : Type 0 where
  sigterm sigkill : Signal

-- stopChildProcess: the signals that it sends. `has_ended` is of the process at the start, and of it at
-- the end of the grace period; a process that is not there is `none`.
unfoldable pub stop_child_process : Option Bool → (ends_in_grace : Bool) → List Signal
stop_child_process none ends_in_grace = []
stop_child_process (some has_ended) ends_in_grace =
    if has_ended then [] else if ends_in_grace then sigterm ∷ [] else sigterm ∷ sigkill ∷ []
