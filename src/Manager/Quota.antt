-- ===== src/Manager/Quota.antt =====
-- The quotas of LspSessionManager in apps/lsp/src/session-manager.ts: #reserve, #release and the
-- counters.
pub mod Counters
use smart_c_playground.Prelude.{
  ℕ, ◌+◌, ◌-◌, Bool, true, false, Option, none, some, List, [], ◌∷◌, leb, if◌then◌else◌, get_or,
}
use smart_c_playground.Text.{Text, text_eq}
use smart_c_playground.Map.{Map, get, set, delete, size, total}
use smart_c_playground.Manager.State.{
  LimitKind, Result, ok, limit_error, Session, Reservation, Config, Manager,
}

pub increment_count : Map ℕ → Text → Map ℕ
increment_count counts key = set counts key (get_or (get counts key) 0 + 1)

-- A counter that falls to zero is removed.
pub decrement_count : Map ℕ → Text → Map ℕ
decrement_count counts key =
    let next_count = get_or (get counts key) 1 - 1 in
    if leb next_count 0 then delete counts key else set counts key next_count

-- countSessions
unfoldable pub count_sessions : Map Session → (Session → Bool) → ℕ
count_sessions [] predicate = 0
count_sessions ((id, session) ∷ rest) predicate =
    (if predicate session then 1 else 0) + count_sessions rest predicate

unfoldable pub count_by_visitor : Manager → Text → ℕ
count_by_visitor m visitor_id =
    count_sessions m.sessions (λ session. text_eq session.visitor_id visitor_id)

unfoldable pub count_by_ip : Manager → Text → ℕ
count_by_ip m client_ip = count_sessions m.sessions (λ session. text_eq session.client_ip client_ip)

-- The reservation is the request's visitor and address, so it is not returned.
unfoldable pub reserve : Config → Manager → Text → Text → Result Manager
unfolding increment_count
reserve o m visitor_id client_ip =
    let active_visitor_count =
      count_by_visitor m visitor_id + get_or (get m.pending_visitors visitor_id) 0 in
    let active_ip_count = count_by_ip m client_ip + get_or (get m.pending_ips client_ip) 0 in
    if m.shutting_down
    then limit_error LimitKind.shutting_down
    else if leb o.max_sessions (size m.sessions + m.pending_count)
    then limit_error LimitKind.global
    else if leb o.max_sessions_per_visitor active_visitor_count
    then limit_error LimitKind.visitor
    else if leb o.max_sessions_per_ip active_ip_count
    then limit_error LimitKind.ip
    else ok (record m {
      pending_count = m.pending_count + 1;
      pending_visitors = increment_count m.pending_visitors visitor_id;
      pending_ips = increment_count m.pending_ips client_ip;
    })

unfoldable pub release : Manager → Reservation → Manager
unfolding decrement_count
release m reservation = record m {
  pending_count = m.pending_count - 1;
  pending_visitors = decrement_count m.pending_visitors reservation.visitor_id;
  pending_ips = decrement_count m.pending_ips reservation.client_ip;
}
