-- ===== src/Adapter/Violation.antt =====
-- The violations that JsonRpcWebSocketAdapter of apps/lsp/src/session-manager.ts reports.
use smart_c_playground.Prelude.{
  flag, ℕ, ◌+◌, ◌≡◌, refl, ap, inl, inr, Bool, false, not, ◌||◌, Option, none, some, List, [], ◌∷◌,
  ◌++◌, map, String, arith, ◌==◌, if◌then◌else◌, if_cases, Bool-cases,
}
use smart_c_playground.Text.{Text}
use smart_c_playground.Guard.State.{Verdict, accepted, rejected, Update, Guard}
use smart_c_playground.Guard.Session.{
  validate_client_message, validate_server_message, take_document_update, open_document_versions,
}
use smart_c_playground.Adapter.{
  Event, activity, reported, written, delivered, forced, sent, closed, Task, message, rebuild,
  Adapter, Wiring, report_violation, schedule_header_rebuild, create_force_rebuild, units_of,
  is_header_update, enqueue, after_verdict, on_message, after_screening, send, deliver,
  force_rebuild, begin_task, end_task, fire, dispose, Action, arrives, responds, begins, ends,
  fires, closes, disposes, act, run,
}

-- How many violations are reported.
pub reports : List Event → ℕ
reports [] = 0
reports (reported code reason ∷ events) = 1 + reports events
reports (activity ∷ events) = reports events
reports (written update ∷ events) = reports events
reports (delivered content ∷ events) = reports events
reports (forced value ∷ events) = reports events
reports (sent content ∷ events) = reports events
reports (closed code reason ∷ events) = reports events

reports-append : (es fs : List Event) → reports (es ++ fs) ≡ reports es + reports fs
unfolding reports
reports-append [] fs = omega arith
reports-append (reported code reason ∷ es) fs = omega (arith, reports-append es fs)
reports-append (activity ∷ es) fs = reports-append es fs
reports-append (written update ∷ es) fs = reports-append es fs
reports-append (delivered content ∷ es) fs = reports-append es fs
reports-append (forced value ∷ es) fs = reports-append es fs
reports-append (sent content ∷ es) fs = reports-append es fs
reports-append (closed code reason ∷ es) fs = reports-append es fs

-- The reports of an action are as many as its changes of the flag.
abbrev pub Reports : Adapter → Adapter × List Event → Type 0
Reports a r = reports r.1 + flag a.violated ≡ flag r.0.violated

report_violation-Reports :
    (a : Adapter) (code : ℕ) (reason : String) → Reports a (report_violation a code reason)
unfolding report_violation reports
report_violation-Reports a code reason =
    if_cases (Reports a) a.violated (λ _. omega arith)
      (λ e. omega (arith, ap (λ b. if◌then◌else◌ {A = ℕ} b 1 0) e))

schedule-violated :
    (a : Adapter) (generation : Option ℕ)
    → (schedule_header_rebuild a generation).violated ≡ a.violated
unfolding schedule_header_rebuild
schedule-violated a none = refl
schedule-violated a (some generation) =
    if_cases (λ (b : Adapter). b.violated ≡ a.violated) (generation == a.generation) (λ _. refl)
      (λ _. refl)

module _ (w : Wiring) where
  enqueue-violated :
      (a : Adapter) (content : Text) (update : Option Update)
      → (enqueue w a content update).violated ≡ a.violated
  unfolding enqueue
  enqueue-violated a content update =
      if_cases (λ (b : Adapter). b.violated ≡ a.violated) (is_header_update w update) (λ _. refl)
        (λ _. refl)

  after_verdict-Reports :
      (a : Adapter) (content : Text) (r : Guard × Verdict) → Reports a (after_verdict w a content r)
  unfolding after_verdict reports
  after_verdict-Reports a content (guard, rejected code reason) =
      report_violation-Reports (record a { guard = guard }) code reason
  after_verdict-Reports a content (guard, accepted) =
      rw
        (enqueue-violated (record a { guard = (take_document_update guard).0 }) content
          (take_document_update guard).1)
        (omega arith)

  after_screening-Reports :
      (a : Adapter) (content : Text) (r : Guard × Verdict)
      → Reports a (after_screening w a content r)
  unfolding after_screening reports
  after_screening-Reports a content (guard, rejected code reason) =
      report_violation-Reports (record a { guard = guard }) code reason
  after_screening-Reports a content (guard, accepted) = omega arith

  deliver-Reports :
      (a : Adapter) (is_open : Bool) (content : Text) (generation : Option ℕ)
      → Reports a (deliver w a is_open content generation)
  unfolding deliver reports
  deliver-Reports a is_open content generation =
      if_cases (Reports a) (a.violated || not is_open) (λ _. omega arith)
        (λ _. rw (schedule-violated a generation) (omega arith))

  force_rebuild-reports :
      (a : Adapter) (is_open : Bool) (generation : ℕ)
      → reports (force_rebuild w a is_open generation) ≡ 0
  unfolding force_rebuild reports
  force_rebuild-reports a is_open generation =
      if_cases (λ (es : List Event). reports es ≡ 0)
        (a.violated || not is_open || not (generation == a.generation)) (λ _. refl)
        (λ _. forces (units_of w.translation_unit_uris (open_document_versions a.guard)))
    where
      none_reported :
          (units : List (Text × ℕ)) → reports (map (λ u. forced (create_force_rebuild u)) units) ≡ 0
      none_reported [] = refl
      none_reported (u ∷ units) = none_reported units

      forces :
          (units : List (Text × ℕ))
          → reports (elim units [
            | [] ↦ []
            | unit ∷ rest ↦ activity ∷ map (λ u. forced (create_force_rebuild u)) (unit ∷ rest)
          ])
            ≡ 0
      forces [] = refl
      forces (unit ∷ rest) = none_reported (unit ∷ rest)

  begin_task-Reports :
      (a : Adapter) (is_open : Bool) (tasks : List Task) → Reports a (begin_task w a is_open tasks)
  unfolding begin_task reports
  begin_task-Reports a is_open [] = omega arith
  begin_task-Reports a is_open (rebuild generation ∷ rest) =
      omega (arith, force_rebuild-reports a is_open generation)
  begin_task-Reports a is_open (message content none generation ∷ rest) =
      deliver-Reports (record a { message_queue = rest }) is_open content generation
  begin_task-Reports a is_open (message content (some update) generation ∷ rest) =
      if_cases (Reports a) a.violated (λ _. omega arith) (λ _. omega arith)

  end_task-Reports :
      (a : Adapter) (is_open is_written : Bool) (tasks : List Task)
      → Reports a (end_task w a is_open is_written tasks)
  unfolding end_task reports
  end_task-Reports a is_open is_written [] = omega arith
  end_task-Reports a is_open is_written (rebuild generation ∷ rest) = omega arith
  end_task-Reports a is_open is_written (message content update generation ∷ rest) =
      let next : Adapter = record a { message_queue = rest; writing = false } in
      if_cases (Reports a) is_written (λ _. deliver-Reports next is_open content generation)
        (λ _. report_violation-Reports next 1011 "Failed to synchronize LSP document")

  fire-violated : (a : Adapter) (timer : Option ℕ) → (fire w a timer).violated ≡ a.violated
  unfolding fire
  fire-violated a none = refl
  fire-violated a (some generation) = refl

  act-Reports :
      (a : Adapter) (is_open : Bool) (action : Action w) → Reports a (act w a is_open action)
  unfolding act on_message send dispose reports
  act-Reports a is_open (arrives now is_binary content) =
      if_cases (Reports a) is_binary
        (λ _. report_violation-Reports a 1003 "Text frames are required")
        (λ _.
          after_verdict-Reports a content (validate_client_message w.limits a.guard now content))
  act-Reports a is_open (responds content buffered_amount) =
      if_cases (Reports a) is_open
        (λ _.
          after_screening-Reports a content
            (validate_server_message w.limits a.guard content buffered_amount))
        (λ _. omega arith)
  act-Reports a is_open begins =
      if_cases (Reports a) a.writing (λ _. omega arith)
        (λ _. begin_task-Reports a is_open a.message_queue)
  act-Reports a is_open (ends is_written) =
      if_cases (Reports a) a.writing (λ _. end_task-Reports a is_open is_written a.message_queue)
        (λ _. omega arith)
  act-Reports a is_open fires = rw (fire-violated a a.timer) (omega arith)
  act-Reports a is_open closes = omega arith
  act-Reports a is_open disposes = elim (Bool-cases is_open) [
    | inl e ↦ rw e (omega arith)
    | inr e ↦ rw e (omega arith)
  ]

  -- In any run of the adapter, whatever the states of the socket, the violations reported are one
  -- if the adapter becomes violated in the run and none otherwise.
  pub run-reports :
      (a : Adapter) (actions : List (Bool × Action w))
      → reports (run w a actions).1 + flag a.violated ≡ flag (run w a actions).0.violated
  unfolding run reports
  run-reports a [] = omega arith
  run-reports a ((is_open, action) ∷ rest) =
      let r = act w a is_open action in
      omega (
        arith,
        act-Reports a is_open action,
        run-reports r.0 rest,
        reports-append r.1 (run w r.0 rest).1,
      )
