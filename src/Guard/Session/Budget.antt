-- ===== src/Guard/Session/Budget.antt =====
-- How many messages and how many bytes the guard accepts from the browser.
use smart_c_playground.Prelude.{ℕ, ◌+◌, ◌≤◌, ◌<◌, ◌≡◌, List, [], ◌∷◌, none, arith, All}
use smart_c_playground.Text.{Text, byte_length}
use smart_c_playground.Guard.State.{Verdict, accepted, rejected, Config, Guard}
use smart_c_playground.Guard.Documents.Steps.{
  DocumentStep, refuses, keeps, opens, changes, saves, closes,
}
use smart_c_playground.Guard.Session.{
  consume_client_budget, validate_content, and_then, validate_client_message,
}
use smart_c_playground.Guard.Session.Steps.{
  MessageStep, stops, passes, initializes, is_initialized, shuts_down, edits, validate_content-step,
}
use smart_c_playground.Guard.Session.Invariant.{IsValid, validate_client_message-IsValid}

-- A message with the time at which it comes.
abbrev pub Timed : Type 0
Timed = ℕ × Text

abbrev pub if_accepted : Verdict → ℕ → ℕ
if_accepted accepted n = n
if_accepted (rejected code reason) n = 0

if_accepted-le : (v : Verdict) (n : ℕ) → if_accepted v n ≤ n
if_accepted-le accepted n = omega arith
if_accepted-le (rejected code reason) n = omega arith

module _ (o : Config) where
  -- How many of the messages are accepted, one after the other.
  pub count_accepted : Guard → List Timed → ℕ
  count_accepted g [] = 0
  count_accepted g ((now, content) ∷ rest) =
      let r = validate_client_message o g now content in if_accepted r.1 1 + count_accepted r.0 rest

  -- And how many bytes they have.
  pub bytes_accepted : Guard → List Timed → ℕ
  bytes_accepted g [] = 0
  bytes_accepted g ((now, content) ∷ rest) =
      let r = validate_client_message o g now content in
      if_accepted r.1 (byte_length content) + bytes_accepted r.0 rest

  -- The counters stand as they stood.
  record SameCounters (g h : Guard) : Type 0 where
    window : h.client_window_started_at ≡ g.client_window_started_at
    messages : h.client_messages_in_window ≡ g.client_messages_in_window
    session : h.client_session_bytes ≡ g.client_session_bytes

  DocumentStep-SameCounters :
      (g : Guard) {r : Guard × Verdict} → DocumentStep o g r → SameCounters g r.0
  DocumentStep-SameCounters g (refuses reason) = omega arith
  DocumentStep-SameCounters g keeps = omega arith
  DocumentStep-SameCounters g (opens uri text version a c s f) = omega arith
  DocumentStep-SameCounters g (changes uri text version document made d n a s f) = omega arith
  DocumentStep-SameCounters g (saves uri text document d s f) = omega arith
  DocumentStep-SameCounters g (closes uri document d) = omega arith

  step-SameCounters : (g : Guard) {r : Guard × Verdict} → MessageStep o g r → SameCounters g r.0
  step-SameCounters g (stops reason) = omega arith
  step-SameCounters g passes = omega arith
  step-SameCounters g (initializes e) = omega arith
  step-SameCounters g (is_initialized e f) = omega arith
  step-SameCounters g (shuts_down e f) = omega arith
  step-SameCounters g (edits e f d) = DocumentStep-SameCounters g d

  -- What a message costs: at least one message and its bytes, if it is accepted.
  abbrev Costs : Guard → ℕ → ℕ → Guard × Verdict → Type 0
  Costs g now size r =
      (now < g.client_window_started_at + o.client_rate_window_ms
        → (r.0.client_window_started_at ≡ g.client_window_started_at)
          × (g.client_messages_in_window + if_accepted r.1 1 ≤ r.0.client_messages_in_window)
          × (r.0.client_messages_in_window ≤ o.client_max_messages_per_window))
      × (g.client_session_bytes + if_accepted r.1 size ≤ r.0.client_session_bytes)
      × (r.0.client_session_bytes ≤ o.client_max_session_bytes)

  charge-Costs :
      (g : Guard) (now size : ℕ)
      → g.client_messages_in_window ≤ o.client_max_messages_per_window
      → g.client_session_bytes ≤ o.client_max_session_bytes
      → Costs g now size (consume_client_budget o g now size)
  unfolding consume_client_budget
  charge-Costs g now size h k =
      (λ within. (ground arith, ground arith, ground arith), ground arith, ground arith)

  and_then-Costs :
      (g : Guard) (now size : ℕ) (r : Guard × Verdict) (content : Text)
      → Costs g now size r
      → Costs g now size (and_then r (λ charged. validate_content o charged content))
  and_then-Costs g now size (charged, rejected code reason) content c = c
  and_then-Costs g now size (charged, accepted) content c =
      let r = validate_content o charged content in
      let same = step-SameCounters charged (validate_content-step o charged content) in
      let one = if_accepted-le r.1 1 in
      let all = if_accepted-le r.1 size in
      (
        λ within. let (w, m, l) = c.0 within in (omega arith, omega arith, omega arith),
        omega arith,
        omega arith,
      )

  message-Costs :
      (g : Guard) (now : ℕ) (content : Text)
      → g.client_messages_in_window ≤ o.client_max_messages_per_window
      → g.client_session_bytes ≤ o.client_max_session_bytes
      → Costs g now (byte_length content) (validate_client_message o g now content)
  unfolding validate_client_message
  message-Costs g now content h k =
      let cleared : Guard = record g { pending_document_update = none } in
      and_then-Costs g now (byte_length content)
        (consume_client_budget o cleared now (byte_length content)) content
        (charge-Costs cleared now (byte_length content) h k)

  -- From a valid guard, of contents that all come before the current window ends, the number
  -- accepted and the number counted before are together at most the limit of a window.
  pub count_accepted_in_window :
      (g : Guard) (messages : List Timed)
      → IsValid o g
      → All (λ m. m.0 < g.client_window_started_at + o.client_rate_window_ms) messages
      → g.client_messages_in_window + count_accepted g messages ≤ o.client_max_messages_per_window
  unfolding count_accepted
  count_accepted_in_window g [] v a = omega arith
  count_accepted_in_window g ((now, content) ∷ rest) v (within, a) =
      let r = validate_client_message o g now content in
      let costs = message-Costs g now content v.budgets_valid.in_window v.budgets_valid.spent in
      let (window, more, most) = costs.0 within in
      let valid = validate_client_message-IsValid o g now content v in
      let ih = count_accepted_in_window r.0 rest valid (rw window a) in omega arith

  -- From a valid guard, of any contents at any times, the bytes of those accepted and the bytes
  -- counted before are together at most the limit of a session.
  pub bytes_accepted_bounded :
      (g : Guard) (messages : List Timed)
      → IsValid o g
      → g.client_session_bytes + bytes_accepted g messages ≤ o.client_max_session_bytes
  unfolding bytes_accepted
  bytes_accepted_bounded g [] v = omega arith
  bytes_accepted_bounded g ((now, content) ∷ rest) v =
      let r = validate_client_message o g now content in
      let costs = message-Costs g now content v.budgets_valid.in_window v.budgets_valid.spent in
      let valid = validate_client_message-IsValid o g now content v in
      let ih = bytes_accepted_bounded r.0 rest valid in omega arith
