-- ===== src/Manager/System/Owners.antt =====
-- How many sessions each owner has, and that only createSession adds one.
use smart_c_playground.Prelude.{
  ℕ, ◌≤◌, ◌≡◌, ap, ◌∙◌, refl, inl, inr, Bool, true, not, ◌&&◌, Option, none, some, List, [], ◌∷◌,
  String, arith, leb, if◌then◌else◌, if_cases, is_some, Option-cases,
}
use smart_c_playground.Text.{Text, text_eq}
use smart_c_playground.Map.{get, set, total, size, total-set_old, total-delete}
use smart_c_playground.Ticket.{Verification, valid, invalid, expired, verify}
use smart_c_playground.Manager.State.{Session, Config, Manager, Authorization}
use smart_c_playground.Manager.Sessions.{
  is_waiting, is_authorized, is_connected, expected_of, check_nonce, check_ticket,
  authorize_web_socket,
}
use smart_c_playground.Manager.Closing.{
  perform_cleanup, close_session, finish_cleanup, close_all, keys, shutdown, fire_timer,
  touch_session, proves_session, discard_with_ticket, discard_session_after_invalid_handshake,
  attach_web_socket,
}

-- Whether the session is the visitor's, or comes from the address.
abbrev pub of_visitor : Text → Session → ℕ
of_visitor v session = if text_eq session.visitor_id v then 1 else 0

abbrev pub of_ip : Text → Session → ℕ
of_ip ip session = if text_eq session.client_ip ip then 1 else 0

-- No owner has more sessions than before, and the reservations are the same.
pub record NoMore (m n : Manager) : Type 0 where
  pub count : n.pending_count ≡ m.pending_count
  pub visitors : n.pending_visitors ≡ m.pending_visitors
  pub ips : n.pending_ips ≡ m.pending_ips
  pub stopped : m.shutting_down ≡ true → n.shutting_down ≡ true
  pub fewer : size n.sessions ≤ size m.sessions
  pub fewer_of_visitor :
      (v : Text) → total (of_visitor v) n.sessions ≤ total (of_visitor v) m.sessions
  pub fewer_of_ip : (ip : Text) → total (of_ip ip) n.sessions ≤ total (of_ip ip) m.sessions

pub NoMore-refl : (m : Manager) → NoMore m m
NoMore-refl m = record {
  count = refl;
  visitors = refl;
  ips = refl;
  stopped = λ e. e;
  fewer = omega arith;
  fewer_of_visitor = λ v. omega arith;
  fewer_of_ip = λ ip. omega arith;
}

NoMore-trans : (m n p : Manager) → NoMore m n → NoMore n p → NoMore m p
NoMore-trans m n p h k = record {
  count = k.count ∙ h.count;
  visitors = k.visitors ∙ h.visitors;
  ips = k.ips ∙ h.ips;
  stopped = λ e. k.stopped (h.stopped e);
  fewer = omega (arith, h.fewer, k.fewer);
  fewer_of_visitor = λ v. omega (arith, h.fewer_of_visitor v, k.fewer_of_visitor v);
  fewer_of_ip = λ ip. omega (arith, h.fewer_of_ip ip, k.fewer_of_ip ip);
}

-- A session takes the place of one with the same owner.
replaced-NoMore :
    (m : Manager) (id : Text) (old new : Session)
    → get m.sessions id ≡ some old
    → new.visitor_id ≡ old.visitor_id
    → new.client_ip ≡ old.client_ip
    → NoMore m (record m { sessions = set m.sessions id new })
replaced-NoMore m id old new e v i = record {
  count = refl;
  visitors = refl;
  ips = refl;
  stopped = λ e. e;
  fewer = omega (arith, total-set_old (λ _. 1) m.sessions id new old e);
  fewer_of_visitor = λ w. omega (
    arith,
    total-set_old (of_visitor w) m.sessions id new old e,
    ap (λ x. if◌then◌else◌ {A = ℕ} (text_eq x w) 1 0) v,
  );
  fewer_of_ip = λ w. omega (
    arith,
    total-set_old (of_ip w) m.sessions id new old e,
    ap (λ x. if◌then◌else◌ {A = ℕ} (text_eq x w) 1 0) i,
  );
}

perform_cleanup-NoMore :
    (m : Manager) (id : Text) (code : ℕ) (reason : String)
    → NoMore m (perform_cleanup m id code reason)
unfolding perform_cleanup
perform_cleanup-NoMore m id code reason = elim (Option-cases (get m.sessions id)) [
  | inl e ↦
      rw (e, perform_cleanup)
        (record {
          count = refl;
          visitors = refl;
          ips = refl;
          stopped = λ e. e;
          fewer = omega arith;
          fewer_of_visitor = λ v. omega arith;
          fewer_of_ip = λ ip. omega arith;
        })
  | inr (session, e) ↦
      rw (e, perform_cleanup)
        (record {
          count = refl;
          visitors = refl;
          ips = refl;
          stopped = λ e. e;
          fewer = omega (arith, total-delete (λ _. 1) m.sessions id session e);
          fewer_of_visitor =
              λ v. omega (arith, total-delete (of_visitor v) m.sessions id session e);
          fewer_of_ip = λ ip. omega (arith, total-delete (of_ip ip) m.sessions id session e);
        })
]

pub close_session-NoMore :
    (m : Manager) (id : Text) (code : ℕ) (reason : String)
    → NoMore m (close_session m id code reason)
unfolding close_session
close_session-NoMore m id code reason =
    if_cases (NoMore m) (is_some (get m.cleanup_promises id)) (λ _. NoMore-refl m)
      (λ _. perform_cleanup-NoMore m id code reason)

close_all-NoMore : (m : Manager) (ids : List Text) → NoMore m (close_all m ids)
unfolding close_all
close_all-NoMore m [] = NoMore-refl m
close_all-NoMore m (id ∷ ids) =
    let reason : String = "Service is restarting" in
    NoMore-trans m (close_session m id 1012 reason) (close_all (close_session m id 1012 reason) ids)
      (close_session-NoMore m id 1012 reason)
      (close_all-NoMore (close_session m id 1012 reason) ids)

pub shutdown-NoMore : (m : Manager) → NoMore m (shutdown m)
unfolding shutdown
shutdown-NoMore m =
    let stopped : Manager = record m { shutting_down = true } in
    let h = close_all-NoMore stopped (keys m.sessions) in
    record {
      count = h.count;
      visitors = h.visitors;
      ips = h.ips;
      stopped = λ e. h.stopped refl;
      fewer = h.fewer;
      fewer_of_visitor = h.fewer_of_visitor;
      fewer_of_ip = h.fewer_of_ip;
    }

pub shutdown-stops : (m : Manager) → (shutdown m).shutting_down ≡ true
unfolding shutdown
shutdown-stops m =
    (close_all-NoMore (record m { shutting_down = true }) (keys m.sessions)).stopped refl

pub finish_cleanup-NoMore : (m : Manager) (id : Text) → NoMore m (finish_cleanup m id)
unfolding finish_cleanup
finish_cleanup-NoMore m id =
    let h = NoMore-refl m in
    record {
      count = h.count;
      visitors = h.visitors;
      ips = h.ips;
      stopped = h.stopped;
      fewer = h.fewer;
      fewer_of_visitor = h.fewer_of_visitor;
      fewer_of_ip = h.fewer_of_ip;
    }

pub fire_timer-NoMore :
    (m : Manager) (id : Text) (timer : Option ℕ) (now : ℕ) (reason : String)
    → NoMore m (fire_timer m id timer now reason)
unfolding fire_timer
fire_timer-NoMore m id none now reason = NoMore-refl m
fire_timer-NoMore m id (some due) now reason =
    if_cases (NoMore m) (leb due now) (λ _. close_session-NoMore m id 1008 reason)
      (λ _. NoMore-refl m)

module _ (o : Config) (m : Manager) (id : Text) where
  pub touch_session-NoMore : (now : ℕ) → NoMore m (touch_session o m id now)
  unfolding touch_session
  touch_session-NoMore now = elim (Option-cases (get m.sessions id)) [
    | inl e ↦ rw (e, touch_session) (NoMore-refl m)
    | inr (session, e) ↦
        rw (e, touch_session)
          (if_cases (NoMore m) (is_connected session.state)
            (λ _. replaced-NoMore m id session _ e refl refl) (λ _. NoMore-refl m))
  ]

  check_nonce-NoMore :
      (session : Session) (now : ℕ) (v : Verification)
      → get m.sessions id ≡ some session
      → NoMore m (check_nonce o m id session now v).0
  unfolding check_nonce
  check_nonce-NoMore session now invalid e = NoMore-refl m
  check_nonce-NoMore session now expired e = NoMore-refl m
  check_nonce-NoMore session now (valid payload) e =
      if_cases (λ (r : Manager × Authorization). NoMore m r.0)
        (text_eq payload.nonce session.ticket_nonce)
        (λ _. replaced-NoMore m id session _ e refl refl) (λ _. NoMore-refl m)

  check_ticket-NoMore :
      (session : Session) (path : Text) (ticket : Option Text) (now : ℕ)
      → get m.sessions id ≡ some session
      → NoMore m (check_ticket o m id session path ticket now).0
  unfolding check_ticket
  check_ticket-NoMore session path none now e = NoMore-refl m
  check_ticket-NoMore session path (some ticket) now e =
      if_cases (λ (r : Manager × Authorization). NoMore m r.0) (not (is_waiting session.state))
        (λ _. NoMore-refl m)
        (λ _.
          check_nonce-NoMore session now
            (verify o.ticket_service ticket (expected_of o id session path) now) e)

  pub authorize_web_socket-NoMore :
      (path : Text) (ticket : Option Text) (now : ℕ)
      → NoMore m (authorize_web_socket o m id path ticket now).0
  unfolding authorize_web_socket
  authorize_web_socket-NoMore path ticket now = elim (Option-cases (get m.sessions id)) [
    | inl e ↦ rw (e, authorize_web_socket) (NoMore-refl m)
    | inr (session, e) ↦
        rw (e, authorize_web_socket) (check_ticket-NoMore session path ticket now e)
  ]

  discard_with_ticket-NoMore :
      (session : Session) (path : Text) (ticket : Option Text) (now : ℕ)
      → NoMore m (discard_with_ticket o m id session path ticket now).0
  unfolding discard_with_ticket
  discard_with_ticket-NoMore session path none now = NoMore-refl m
  discard_with_ticket-NoMore session path (some ticket) now =
      if_cases (λ (r : Manager × Bool). NoMore m r.0)
        (is_waiting session.state
          && proves_session o session
              (verify o.ticket_service ticket (expected_of o id session path) now))
        (λ _. close_session-NoMore m id 1008 "Invalid WebSocket handshake") (λ _. NoMore-refl m)

  pub discard-NoMore :
      (path : Text) (ticket : Option Text) (now : ℕ)
      → NoMore m (discard_session_after_invalid_handshake o m id path ticket now).0
  unfolding discard_session_after_invalid_handshake
  discard-NoMore path ticket now = elim (Option-cases (get m.sessions id)) [
    | inl e ↦ rw (e, discard_session_after_invalid_handshake) (NoMore-refl m)
    | inr (session, e) ↦
        rw (e, discard_session_after_invalid_handshake)
          (discard_with_ticket-NoMore session path ticket now)
  ]

  pub attach_web_socket-NoMore :
      (web_socket clangd : ℕ) (streams : Bool) (now : ℕ)
      → NoMore m (attach_web_socket o m id web_socket clangd streams now).0
  unfolding attach_web_socket
  attach_web_socket-NoMore web_socket clangd streams now = elim (Option-cases (get m.sessions id)) [
    | inl e ↦ rw (e, attach_web_socket) (NoMore-refl m)
    | inr (session, e) ↦
        rw (e, attach_web_socket)
          (if_cases (λ (r : Manager × Bool). NoMore m r.0) (not (is_authorized session.state))
            (λ _. NoMore-refl m)
            (λ _.
              if_cases (λ (r : Manager × Bool). NoMore m r.0) streams
                (λ _. replaced-NoMore m id session _ e refl refl)
                (λ _.
                  NoMore-trans m _ _ (replaced-NoMore m id session _ e refl refl)
                    (close_session-NoMore _ id 1011 "clangd streams are unavailable"))))
  ]
