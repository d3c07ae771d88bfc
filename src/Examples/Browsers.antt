-- ===== src/Examples/Browsers.antt =====
-- The browser: its projects, its connection and its executions; and the settings of the service behind it.
use smart_c_playground.Prelude.{
  ℕ, flag, zero, suc, ◌+◌, ◌-◌, ◌≤◌, ◌≡◌, ◌≢◌, refl, Bool, true, false, Option, none, some, List,
  [], ◌∷◌, arith,
}
use smart_c_playground.Text.{
  starts_with, Text, codes, text_eq, has, includes, trim, trim_start, trim_end,
}
use smart_c_playground.Json.{Json, pos}
use smart_c_playground.Contracts.{main_c, to_lower_case, is_valid_source_file_name}
use smart_c_playground.Client.Storage.{Project, has_file, project_json, load_project, save_project}
use smart_c_playground.Client.Storage.Saved.{IsProject, load_project-save_project}
use smart_c_playground.Client.Project.{
  UserAction, creates, renames, deletes, changes, selects, act, run, collides, get_file_name_error,
}
use smart_c_playground.Client.Project.Edits.{AreOffered, run-IsProject}
use smart_c_playground.Client.Connection.{
  World, Connection, connected, unavailable, connect_lsp, Action as ConnectionAction,
  changes_status, fires, run as run_connection,
}
use smart_c_playground.Client.Connection.Attempts.{EndsWithin, connect_lsp-Ends}
use smart_c_playground.Client.Connection.Reconnects.{run-cycle}
use smart_c_playground.Client.Phase.{
  is_active, hello, phase_is, at_running, creating, cancelled, phase_of,
}
use smart_c_playground.Client.Execution.{
  start_run, Execution, initial, Action as ExecutionAction, runs, answers, receives, loses, stop,
  act as act_execution, run as run_execution,
}
use smart_c_playground.Client.Execution.Valid.{IsValid, run-IsValid, initial-IsValid}
use smart_c_playground.Client.Execution.Stale.{
  new_run_ignores_earlier, calls_off, stop_before_first_phase,
}
use smart_c_playground.Config.{Environment, Platform, load_config}
use smart_c_playground.Config.Loaded.{Gives, IsSafe, load_config-IsSafe}
use smart_c_playground.App.{create_session_request}
use smart_c_playground.App.Forwarded.{forwarded-create_session_request}
use smart_c_playground.Web.Http.{get_client_ip}
use smart_c_playground.Web.Identity.{is_visitor_id}
use smart_c_playground.Web.Routes.{lsp_route}
use smart_c_playground.Examples.Requests.{main_file, main_file-AreSafe}

abbrev project : Project
project = record { files = main_file ∷ []; active_file_name = main_c }

small_project-IsProject : IsProject project
unfolding is_valid_source_file_name codes has to_lower_case text_eq has_file
small_project-IsProject = record {
  some_file = omega arith;
  few = omega arith;
  valid = (refl, tt);
  unique = (refl, tt);
  main = refl;
  active = refl;
}

-- One text stands for the project that is written.
abbrev parse : Text → Option Json
parse text = some (project_json project)

abbrev stringify : Json → Text
stringify value = codes "project"

load_project-save_project_example :
    load_project parse true (save_project stringify true true [] project).0 ≡ project
load_project-save_project_example =
    load_project-save_project parse stringify true [] project small_project-IsProject tt refl

-- A header comes, is renamed, and goes again.
abbrev actions : List UserAction
actions =
    creates (some (codes "a.h"))
    ∷ renames (codes "a.h") (some (codes "b.h"))
    ∷ changes (codes "main.c") (codes "int y;")
    ∷ selects (codes "main.c")
    ∷ deletes (codes "b.h") true
    ∷ []

actions-AreOffered : AreOffered project actions
unfolding is_valid_source_file_name codes to_lower_case text_eq has_file act collides
    get_file_name_error trim trim_start trim_end
actions-AreOffered = (tt, (refl, (refl, (refl, (refl, tt)))))

run-IsProject_example : IsProject (run project actions)
run-IsProject_example = run-IsProject project actions small_project-IsProject actions-AreOffered

-- The first attempt fails, and the second one succeeds.
abbrev world : World
world = record {
  succeeds = λ attempt. elim attempt [ zero ↦ false | suc n ↦ true ];
  cancelled = λ attempt. false;
  cancelled_in_wait = λ attempt. false;
}

connect_lsp-Ends_example : EndsWithin world 3 (connect_lsp 3 world 0)
connect_lsp-Ends_example = connect_lsp-Ends world

abbrev connection : Connection
connection = record {
  has_session = true;
  status = connected;
  cycle = 0;
  reconnect_timer = false;
  reconnect_count = 0;
  pending_restart = false;
}

-- The connection is lost, and the timer of its reconnection fires.
abbrev lost : List ConnectionAction
lost = changes_status unavailable ∷ fires ∷ []

run-cycle_example :
    (run_connection connection lost).cycle
    ≤ connection.cycle
      + (3 - connection.reconnect_count)
      + flag connection.reconnect_timer
      + flag connection.pending_restart
run-cycle_example = run-cycle connection lost (tt, (tt, tt))

-- An execution begins, gets its socket, and is answered.
abbrev execution : List (Bool × ExecutionAction)
execution =
    (false, runs 1)
    ∷ (false, answers 1 7)
    ∷ (true, receives 7 (codes "s") 100 30 (hello 1 (codes "s")))
    ∷ (true, receives 7 (codes "s") 100 30 (phase_is at_running))
    ∷ []

run-IsValid_example : IsValid (run_execution initial execution).0
run-IsValid_example = run-IsValid initial execution initial-IsValid

-- Its socket is there, and no phase has been reported.
abbrev just_created : Execution
just_created = record {
  phase = creating;
  socket = some 7;
  request = none;
  request_aborted = false;
  ping_timer = false;
  expected_close = false;
}

-- It was cancelled, and the user runs again; then the earlier request is answered and the earlier socket
-- has a message and closes.
abbrev stopped : Execution
stopped = record {
  phase = cancelled;
  socket = some 7;
  request = none;
  request_aborted = false;
  ping_timer = false;
  expected_close = false;
}

abbrev left_over : List (Bool × ExecutionAction)
left_over =
    (false, answers 1 8)
    ∷ (true, receives 7 (codes "s") 100 30 (phase_is at_running))
    ∷ (false, loses 7)
    ∷ []

earlier_request : ◌≢◌ {A = ℕ} 1 2
earlier_request e = omega (arith, e)

new_run_ignores_earlier_example :
    run_execution (start_run stopped true 2).0 left_over ≡ ((start_run stopped true 2).0, [])
unfolding is_active
new_run_ignores_earlier_example =
    new_run_ignores_earlier stopped true 2 left_over refl (earlier_request, (tt, (tt, tt)))

stop_before_first_phase_example :
    (calls_off (stop just_created true).1 ≡ false)
    × ((stop just_created true).0.socket ≡ some 7)
    × ((stop just_created true).0.phase ≡ cancelled)
    × ((act_execution
          (stop just_created true).0
          true
          (receives 7 (codes "s") 100 30 (phase_is at_running))).0.phase
        ≡ phase_of at_running)
stop_before_first_phase_example =
    stop_before_first_phase just_created true 7 (codes "s") 100 30 at_running refl refl refl

abbrev environment : Environment
environment = record {
  node_env = none;
  lsp_host = none;
  host = none;
  lsp_port = some (codes "3001");
  port = none;
  web_origin = none;
  internal_service_token = some (codes "0123456789abcdef0123456789abcdef");
  session_signing_secret = some (codes "0123456789abcdef0123456789abcdef");
  lsp_workspace_root = none;
  clangd_path = none;
  clangd_sandbox_path = none;
  clangd_limiter_path = none;
  lsp_max_sessions = none;
  lsp_max_sessions_per_visitor = none;
  lsp_max_sessions_per_ip = none;
}

abbrev node : Platform
node = record {
  is_absolute = λ path. starts_with path (codes "/");
  number_of = λ text. pos 3001;
  url_of = λ text. some (codes "http:", text);
}

load_config-IsSafe_example : Gives (IsSafe environment) (load_config node environment)
load_config-IsSafe_example = load_config-IsSafe node environment

abbrev uuid : Text
uuid = codes "11111111-1111-4111-8111-111111111111"

forwarded-create_session_request_example :
    create_session_request (
      some
        (lsp_route.upstream_body (main_file ∷ []) uuid (get_client_ip (some (codes "192.0.2.1")))))
    ≡ some (record {
      files = main_file ∷ [];
      visitor_id = uuid;
      client_ip = get_client_ip (some (codes "192.0.2.1"));
    })
unfolding is_visitor_id codes includes
forwarded-create_session_request_example =
    forwarded-create_session_request (main_file ∷ []) uuid (some (codes "192.0.2.1"))
      main_file-AreSafe refl (refl, refl, refl)
