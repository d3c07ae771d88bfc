-- ===== src/Adapter/Order.antt =====
-- The order in which JsonRpcWebSocketAdapter of apps/lsp/src/session-manager.ts gives clangd the messages
-- that the guard accepts.
use mathlib.Core.List.{append_assoc, append-nil}
use mathlib.Core.Bool.{false≢true}
use smart_c_playground.Prelude.{
  flag, ℕ, ◌+◌, ◌≡◌, refl, ap, sym, ◌∙◌, Bool, true, false, not, ◌||◌, Option, none, some, List, [],
  ◌∷◌, ◌++◌, map, String, arith, ◌==◌, if_cases,
}
use smart_c_playground.Text.{Text}
use smart_c_playground.Guard.State.{Verdict, accepted, rejected, Update, Guard}
use smart_c_playground.Guard.Session.{
  validate_client_message, validate_server_message, take_document_update, open_document_versions,
}
use smart_c_playground.Adapter.{
  Event, activity, reported, written, delivered, forced, sent, closed, Task, message, rebuild,
  Adapter, Wiring, report_violation, schedule_header_rebuild, create_force_rebuild, units_of,
  is_header_update, enqueue, after_verdict, on_message, after_screening, send, deliver,
  force_rebuild, begin_task, end_task, fire, dispose, Action, arrives, responds, begins, ends,
  fires, closes, disposes, act, run,
}
use smart_c_playground.Adapter.Violation.{reports, run-reports}

-- The messages among the tasks, and those that clangd is given.
pub contents_of : List Task → List Text
contents_of [] = []
contents_of (message content update generation ∷ tasks) = content ∷ contents_of tasks
contents_of (rebuild generation ∷ tasks) = contents_of tasks

pub delivered_of : List Event → List Text
delivered_of [] = []
delivered_of (delivered content ∷ events) = content ∷ delivered_of events
delivered_of (activity ∷ events) = delivered_of events
delivered_of (reported code reason ∷ events) = delivered_of events
delivered_of (written update ∷ events) = delivered_of events
delivered_of (forced value ∷ events) = delivered_of events
delivered_of (sent content ∷ events) = delivered_of events
delivered_of (closed code reason ∷ events) = delivered_of events

contents_of-append : (ts us : List Task) → contents_of (ts ++ us) ≡ contents_of ts ++ contents_of us
unfolding contents_of
contents_of-append [] us = refl
contents_of-append (message content update generation ∷ ts) us =
    ap (λ cs. content ∷ cs) (contents_of-append ts us)
contents_of-append (rebuild generation ∷ ts) us = contents_of-append ts us

delivered_of-append :
    (es fs : List Event) → delivered_of (es ++ fs) ≡ delivered_of es ++ delivered_of fs
unfolding delivered_of
delivered_of-append [] fs = refl
delivered_of-append (delivered content ∷ es) fs =
    ap (λ cs. content ∷ cs) (delivered_of-append es fs)
delivered_of-append (activity ∷ es) fs = delivered_of-append es fs
delivered_of-append (reported code reason ∷ es) fs = delivered_of-append es fs
delivered_of-append (written update ∷ es) fs = delivered_of-append es fs
delivered_of-append (forced value ∷ es) fs = delivered_of-append es fs
delivered_of-append (sent content ∷ es) fs = delivered_of-append es fs
delivered_of-append (closed code reason ∷ es) fs = delivered_of-append es fs

abbrev pub content_if : Verdict → Text → List Text
content_if accepted content = content ∷ []
content_if (rejected code reason) content = []

module _ (w : Wiring) where
  -- The message of the action, if it is one that the guard accepts.
  abbrev pub accepted_in : Adapter → Action w → List Text
  accepted_in a (arrives now true content) = []
  accepted_in a (arrives now false content) =
      content_if (validate_client_message w.limits a.guard now content).1 content
  accepted_in a (responds content buffered_amount) = []
  accepted_in a begins = []
  accepted_in a (ends is_written) = []
  accepted_in a fires = []
  accepted_in a closes = []
  accepted_in a disposes = []

  -- The messages that the guard accepts, on a socket that stays open.
  pub accepted_by : Adapter → List (Action w) → List Text
  accepted_by a [] = []
  accepted_by a (action ∷ rest) = accepted_in a action ++ accepted_by (act w a true action).0 rest

  abbrev pub open_actions : List (Action w) → List (Bool × Action w)
  open_actions actions = map (λ action. (true, action)) actions

  -- Nothing is lost and nothing overtakes, as long as there is no violation.
  abbrev Keeps : List Text → List Text → Adapter × List Event → Type 0
  Keeps waiting arrived r =
      r.0.violated ≡ false → delivered_of r.1 ++ contents_of r.0.message_queue ≡ waiting ++ arrived

  violation-Keeps :
      (a : Adapter) (waiting arrived : List Text) (code : ℕ) (reason : String)
      → Keeps waiting arrived (report_violation a code reason)
  unfolding report_violation
  violation-Keeps a waiting arrived code reason =
      if_cases (Keeps waiting arrived) a.violated (λ e f. absurd (false≢true (sym f ∙ e)))
        (λ e f. absurd (false≢true (sym f)))

  schedule-queue :
      (a : Adapter) (generation : Option ℕ)
      → (schedule_header_rebuild a generation).message_queue ≡ a.message_queue
  unfolding schedule_header_rebuild
  schedule-queue a none = refl
  schedule-queue a (some generation) =
      if_cases (λ (b : Adapter). b.message_queue ≡ a.message_queue) (generation == a.generation)
        (λ _. refl) (λ _. refl)

  deliver-Keeps :
      (a : Adapter) (content : Text) (generation : Option ℕ)
      → a.violated ≡ false
      → Keeps (content ∷ contents_of a.message_queue) [] (deliver w a true content generation)
  unfolding deliver delivered_of
  deliver-Keeps a content generation h =
      if_cases (Keeps (content ∷ contents_of a.message_queue) []) (a.violated || not true)
        (λ e f. ground (arith, h, e))
        (λ _ f.
          ap (λ q. content ∷ contents_of q) (schedule-queue a generation)
          ∙ sym (append-nil (content ∷ contents_of a.message_queue)))

  enqueue-contents :
      (a : Adapter) (content : Text) (update : Option Update)
      → contents_of (enqueue w a content update).message_queue
        ≡ contents_of a.message_queue ++ content ∷ []
  unfolding enqueue contents_of
  enqueue-contents a content update =
      if_cases
        (λ (b : Adapter). contents_of b.message_queue ≡ contents_of a.message_queue ++ content ∷ [])
        (is_header_update w update) (λ _. contents_of-append a.message_queue _)
        (λ _. contents_of-append a.message_queue _)

  after_verdict-Keeps :
      (a : Adapter) (content : Text) (r : Guard × Verdict)
      → Keeps (contents_of a.message_queue) (content_if r.1 content) (after_verdict w a content r)
  unfolding after_verdict delivered_of
  after_verdict-Keeps a content (guard, rejected code reason) =
      violation-Keeps (record a { guard = guard }) (contents_of a.message_queue) [] code reason
  after_verdict-Keeps a content (guard, accepted) = λ f.
      enqueue-contents (record a { guard = (take_document_update guard).0 }) content
        (take_document_update guard).1

  after_screening-Keeps :
      (a : Adapter) (content : Text) (r : Guard × Verdict)
      → Keeps (contents_of a.message_queue) [] (after_screening w a content r)
  unfolding after_screening delivered_of
  after_screening-Keeps a content (guard, rejected code reason) =
      violation-Keeps (record a { guard = guard }) (contents_of a.message_queue) [] code reason
  after_screening-Keeps a content (guard, accepted) =
      λ f. sym (append-nil (contents_of a.message_queue))

  force_rebuild-delivered :
      (a : Adapter) (is_open : Bool) (generation : ℕ)
      → delivered_of (force_rebuild w a is_open generation) ≡ []
  unfolding force_rebuild delivered_of
  force_rebuild-delivered a is_open generation =
      if_cases (λ (es : List Event). delivered_of es ≡ [])
        (a.violated || not is_open || not (generation == a.generation)) (λ _. refl)
        (λ _. forces (units_of w.translation_unit_uris (open_document_versions a.guard)))
    where
      none_delivered :
          (units : List (Text × ℕ))
          → delivered_of (map (λ u. forced (create_force_rebuild u)) units) ≡ []
      none_delivered [] = refl
      none_delivered (u ∷ units) = none_delivered units

      forces :
          (units : List (Text × ℕ))
          → delivered_of (elim units [
            | [] ↦ []
            | unit ∷ rest ↦ activity ∷ map (λ u. forced (create_force_rebuild u)) (unit ∷ rest)
          ])
            ≡ []
      forces [] = refl
      forces (unit ∷ rest) = none_delivered (unit ∷ rest)

  begin_task-Keeps :
      (a : Adapter) (tasks : List Task)
      → a.message_queue ≡ tasks
      → a.violated ≡ false
      → Keeps (contents_of tasks) [] (begin_task w a true tasks)
  unfolding begin_task delivered_of contents_of
  begin_task-Keeps a [] q h = λ f. ap contents_of q
  begin_task-Keeps a (rebuild generation ∷ rest) q h = λ f.
      ap (λ cs. cs ++ contents_of rest) (force_rebuild-delivered a true generation)
      ∙ sym (append-nil (contents_of rest))
  begin_task-Keeps a (message content none generation ∷ rest) q h =
      deliver-Keeps (record a { message_queue = rest }) content generation h
  begin_task-Keeps a (message content (some update) generation ∷ rest) q h =
      if_cases (Keeps (content ∷ contents_of rest) []) a.violated
        (λ e f. absurd (false≢true (sym h ∙ e)))
        (λ _ f. ap contents_of q ∙ sym (append-nil (content ∷ contents_of rest)))

  end_task-Keeps :
      (a : Adapter) (is_written : Bool) (tasks : List Task)
      → a.message_queue ≡ tasks
      → a.violated ≡ false
      → Keeps (contents_of tasks) [] (end_task w a true is_written tasks)
  unfolding end_task delivered_of contents_of
  end_task-Keeps a is_written [] q h = λ f. ap contents_of q
  end_task-Keeps a is_written (rebuild generation ∷ rest) q h =
      λ f. ap contents_of q ∙ sym (append-nil (contents_of rest))
  end_task-Keeps a is_written (message content update generation ∷ rest) q h =
      let next : Adapter = record a { message_queue = rest; writing = false } in
      if_cases (Keeps (content ∷ contents_of rest) []) is_written
        (λ _. deliver-Keeps next content generation h)
        (λ _.
          violation-Keeps next (content ∷ contents_of rest) [] 1011
            "Failed to synchronize LSP document")

  fire-Keeps :
      (a : Adapter) (timer : Option ℕ) → Keeps (contents_of a.message_queue) [] (fire w a timer, [])
  unfolding fire delivered_of contents_of
  fire-Keeps a none f = sym (append-nil (contents_of a.message_queue))
  fire-Keeps a (some generation) f = contents_of-append a.message_queue _

  act-Keeps :
      (a : Adapter) (action : Action w)
      → a.violated ≡ false
      → Keeps (contents_of a.message_queue) (accepted_in a action) (act w a true action)
  unfolding act on_message send dispose delivered_of
  act-Keeps a (arrives now true content) h =
      violation-Keeps a (contents_of a.message_queue) [] 1003 "Text frames are required"
  act-Keeps a (arrives now false content) h =
      after_verdict-Keeps a content (validate_client_message w.limits a.guard now content)
  act-Keeps a (responds content buffered_amount) h =
      after_screening-Keeps a content
        (validate_server_message w.limits a.guard content buffered_amount)
  act-Keeps a begins h =
      if_cases (Keeps (contents_of a.message_queue) []) a.writing
        (λ _ f. sym (append-nil (contents_of a.message_queue)))
        (λ _. begin_task-Keeps a a.message_queue refl h)
  act-Keeps a (ends is_written) h =
      if_cases (Keeps (contents_of a.message_queue) []) a.writing
        (λ _. end_task-Keeps a is_written a.message_queue refl h)
        (λ _ f. sym (append-nil (contents_of a.message_queue)))
  act-Keeps a fires h = fire-Keeps a a.timer
  act-Keeps a closes h = λ f. sym (append-nil (contents_of a.message_queue))
  act-Keeps a disposes h = λ f. sym (append-nil (contents_of a.message_queue))

  -- A run that ends without a violation has none on the way.
  began_clean :
      (a : Adapter) (actions : List (Bool × Action w))
      → (run w a actions).0.violated ≡ false
      → a.violated ≡ false
  began_clean a actions f =
      clean (run w a actions).0 (reports (run w a actions).1) (run-reports w a actions) f
    where
      clean :
          (b : Adapter) (n : ℕ)
          → n + flag a.violated ≡ flag b.violated
          → b.violated ≡ false
          → a.violated ≡ false
      clean b n e f = ground (arith, e, f)

  -- On a socket that stays open, if a run of the adapter ends without a violation, then the
  -- messages that clangd is given, followed by those still in the queue, are those that were in the
  -- queue, followed by those that the guard accepts in the run, in that order.
  pub run-in_order :
      (a : Adapter) (actions : List (Action w))
      → (run w a (open_actions actions)).0.violated ≡ false
      → delivered_of (run w a (open_actions actions)).1
          ++ contents_of (run w a (open_actions actions)).0.message_queue
        ≡ contents_of a.message_queue ++ accepted_by a actions
  unfolding run accepted_by delivered_of
  run-in_order a [] f = sym (append-nil (contents_of a.message_queue))
  run-in_order a (action ∷ rest) f =
      let r = act w a true action in
      let last = run w r.0 (open_actions rest) in
      let clean = began_clean r.0 (open_actions rest) f in
      let here = act-Keeps a action (began_clean a (open_actions (action ∷ rest)) f) clean in
      let later = run-in_order r.0 rest f in
      chain (delivered_of r.1) (delivered_of last.1) (contents_of last.0.message_queue)
        (contents_of r.0.message_queue) (accepted_by r.0 rest) (contents_of a.message_queue)
        (accepted_in a action) (delivered_of (r.1 ++ last.1)) (delivered_of-append r.1 last.1) here
        later
    where
      chain :
          (d e q k later waiting arrived both : List Text)
          → both ≡ d ++ e
          → d ++ k ≡ waiting ++ arrived
          → e ++ q ≡ k ++ later
          → both ++ q ≡ waiting ++ (arrived ++ later)
      chain d e q k later waiting arrived both b here rest =
          ap (λ x. x ++ q) b
          ∙ append_assoc d e q
          ∙ ap (λ x. d ++ x) rest
          ∙ sym (append_assoc d k later)
          ∙ ap (λ x. x ++ later) here
          ∙ append_assoc waiting arrived later
