-- ===== src/Client/Connection/Reconnects.antt =====
-- How often apps/web/components/playground.tsx starts a session anew.
use smart_c_playground.Prelude.{flag, ℕ, ◌+◌, ◌-◌, ◌≤◌, List, [], ◌∷◌, arith, All}
use smart_c_playground.Transport.{get_next_lsp_reconnect_delay}
use smart_c_playground.Client.Connection.{
  idle, connecting, connected, reconnecting, unavailable, Connection, session_at, cancelled_at,
  unavailable_at, out_of_fuel, handle_lsp_status_change, handle_lsp_disposed, fire_reconnect_timer,
  settle_session, Action, changes_status, restructures, disposes, fires, settles, act, run,
}

-- The sessions that were started, with those that may still be without a change of the files.
pub budget : Connection → ℕ
budget c = c.cycle + (3 - c.reconnect_count) + flag c.reconnect_timer + flag c.pending_restart

abbrev pub KeepsFiles : Action → Type 0
KeepsFiles (changes_status status) = Unit
KeepsFiles restructures = ⊥
KeepsFiles disposes = Unit
KeepsFiles fires = Unit
KeepsFiles (settles ending) = Unit

act-budget :
    (c : Connection) (action : Action) → KeepsFiles action → budget (act c action) ≤ budget c
unfolding act handle_lsp_status_change get_next_lsp_reconnect_delay handle_lsp_disposed
    fire_reconnect_timer settle_session budget
act-budget c (changes_status idle) k = omega arith
act-budget c (changes_status connecting) k = omega arith
act-budget c (changes_status connected) k = ground arith
act-budget c (changes_status reconnecting) k = omega arith
act-budget c (changes_status unavailable) k = ground arith
act-budget c restructures k = absurd k
act-budget c disposes k = ground arith
act-budget c fires k = ground arith
act-budget c (settles (session_at attempt)) k = omega arith
act-budget c (settles (cancelled_at attempt)) k = omega arith
act-budget c (settles (unavailable_at attempt)) k = omega arith
act-budget c (settles out_of_fuel) k = omega arith

run-budget :
    (c : Connection) (actions : List Action)
    → All KeepsFiles actions
    → budget (run c actions) ≤ budget c
unfolding run
run-budget c [] k = omega arith
run-budget c (action ∷ rest) k =
    omega (arith, act-budget c action k.0, run-budget (act c action) rest k.1)

-- As long as the user does not change the structure of the project, new sessions are begun at most
-- three times less the reconnections already counted, and once more for each of a waiting timer and
-- a pending restart.
pub run-cycle :
    (c : Connection) (actions : List Action)
    → All KeepsFiles actions
    → (run c actions).cycle
      ≤ c.cycle + (3 - c.reconnect_count) + flag c.reconnect_timer + flag c.pending_restart
unfolding budget
run-cycle c actions k = omega (arith, run-budget c actions k)
