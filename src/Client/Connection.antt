-- ===== src/Client/Connection.antt =====
-- How apps/web/components/playground.tsx connects to the language server: the attempts to create a session,
-- and the sessions that follow one another.
pub mod Attempts
pub mod Reconnects
use smart_c_playground.Prelude.{
  ℕ, zero, suc, ◌+◌, ◌*◌, ◌≡◌, Bool, true, false, not, ◌&&◌, ◌||◌, Option, none, some, List, [],
  ◌∷◌, ltb, is_some, if◌then◌else◌,
}
use smart_c_playground.Transport.{get_next_lsp_reconnect_delay}

-- How connectLsp ends, by the attempt that ends it.
pub data Ending : Type 0 where
  session_at : (attempt : ℕ) → Ending
  cancelled_at : (attempt : ℕ) → Ending
  unavailable_at : (attempt : ℕ) → Ending
  out_of_fuel : Ending

-- The requests for a session and the waits between them, in milliseconds.
pub record Connecting : Type 0 where
  pub ending : Ending
  pub requests : ℕ
  pub waits : List ℕ

-- What the surroundings do to attempt n: whether the session is created, whether the effect is cancelled by
-- the time of the answer, and whether it is by the end of the wait.
pub record World : Type 0 where
  pub succeeds : ℕ → Bool
  pub cancelled : ℕ → Bool
  pub cancelled_in_wait : ℕ → Bool

abbrev pub once_more : Option ℕ → Connecting → Connecting
once_more none c = record c { requests = suc c.requests }
once_more (some wait) c = record c { requests = suc c.requests; waits = wait ∷ c.waits }

abbrev pub ends_with : Ending → Connecting
ends_with ending = record { ending = ending; requests = 0; waits = [] }

-- connectLsp, on fuel.
unfoldable pub connect_lsp : (fuel : ℕ) → World → (attempt : ℕ) → Connecting
connect_lsp zero w attempt = ends_with out_of_fuel
connect_lsp (suc fuel) w attempt =
    let rest = connect_lsp fuel w (attempt + 1) in
    if w.cancelled attempt
    then once_more none (ends_with (cancelled_at attempt))
    else if w.succeeds attempt
    then once_more none (ends_with (session_at attempt))
    else if ltb attempt 2
    then if w.cancelled_in_wait attempt
      then once_more (some (750 * (attempt + 1))) (ends_with (cancelled_at attempt))
      else once_more (some (750 * (attempt + 1))) rest
    else once_more none (ends_with (unavailable_at attempt))

-- LspStatus
pub data LspStatus : Type 0 where
  idle connecting connected reconnecting unavailable : LspStatus

-- The state and the refs of the connection. `has_session` is lspSession !== undefined, and the timer is a
-- reconnection that waits.
pub record Connection : Type 0 where
  pub has_session : Bool
  pub status : LspStatus
  pub cycle : ℕ
  pub reconnect_timer : Bool
  pub reconnect_count : ℕ
  pub pending_restart : Bool

abbrev pub reconnect : Connection → Option ℕ → Connection
reconnect c none = c
reconnect c (some delay) =
    if c.reconnect_timer
    then c
    else record c { reconnect_count = c.reconnect_count + 1; reconnect_timer = true }

-- handleLspStatusChange
unfoldable pub handle_lsp_status_change : Connection → LspStatus → Connection
handle_lsp_status_change c idle = record c { status = idle }
handle_lsp_status_change c connecting = record c { status = connecting }
handle_lsp_status_change c reconnecting = record c { status = reconnecting }
handle_lsp_status_change c connected = record c { status = connected; reconnect_timer = false }
handle_lsp_status_change c unavailable =
    reconnect (record c { status = unavailable; has_session = false })
      (get_next_lsp_reconnect_delay c.reconnect_count)

-- The part of updateProjectStructure that is about the connection.
unfoldable pub update_project_structure : Connection → Connection
update_project_structure c =
    let fresh : Connection = record c {
      status = reconnecting;
      reconnect_timer = false;
      reconnect_count = 0;
    } in
    if c.pending_restart
    then fresh
    else if c.has_session
    then record fresh { pending_restart = true; has_session = false }
    else record fresh { cycle = c.cycle + 1 }

-- handleLspDisposed
unfoldable pub handle_lsp_disposed : Connection → Connection
handle_lsp_disposed c =
    if c.pending_restart then record c { pending_restart = false; cycle = c.cycle + 1 } else c

-- The timer of a reconnection fires.
unfoldable pub fire_reconnect_timer : Connection → Connection
fire_reconnect_timer c =
    if c.reconnect_timer then record c { reconnect_timer = false; cycle = c.cycle + 1 } else c

-- connectLsp sets the session, or gives up.
unfoldable pub settle_session : Connection → Ending → Connection
settle_session c (session_at attempt) = record c { has_session = true }
settle_session c (cancelled_at attempt) = c
settle_session c (unavailable_at attempt) = record c { has_session = false; status = unavailable }
settle_session c out_of_fuel = c

pub data Action : Type 0 where
  changes_status : LspStatus → Action
  restructures : Action
  disposes : Action
  fires : Action
  settles : Ending → Action

unfoldable pub act : Connection → Action → Connection
unfolding handle_lsp_status_change update_project_structure handle_lsp_disposed fire_reconnect_timer
    settle_session
act c (changes_status status) = handle_lsp_status_change c status
act c restructures = update_project_structure c
act c disposes = handle_lsp_disposed c
act c fires = fire_reconnect_timer c
act c (settles ending) = settle_session c ending

unfoldable pub run : Connection → List Action → Connection
run c [] = c
run c (action ∷ rest) = run (act c action) rest
