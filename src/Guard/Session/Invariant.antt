-- ===== src/Guard/Session/Invariant.antt =====
-- What holds of the guard after any messages: its budgets, its documents, its life cycle.
use smart_c_playground.Prelude.{
  ℕ, ◌+◌, ◌≤◌, ◌≡◌, refl, inl, inr, Bool, true, false, none, [], arith, ltb, leb, not, if_cases,
  Option-cases, Bool-cases,
}
use smart_c_playground.Text.{Text, byte_length}
use smart_c_playground.Guard.Uris.{has_unexpected_uri}
use smart_c_playground.Guard.Methods.{is_version_two}
use smart_c_playground.Map.{Map, total}
use smart_c_playground.Guard.State.{Verdict, accepted, rejected, Config, Guard, Document, init}
use smart_c_playground.Guard.Documents.Steps.{
  DocumentStep, refuses, keeps, opens, changes, saves, closes,
}
use smart_c_playground.Guard.Documents.Invariant.{HasTracked, step-HasTracked}
use smart_c_playground.Guard.Session.{
  parse_json_object, roll_window, charge, consume_client_budget, validate_content, and_then,
  validate_client_message, validate_server_message,
}
use smart_c_playground.Guard.Session.Steps.{
  MessageStep, stops, passes, initializes, is_initialized, shuts_down, edits, validate_content-step,
}

module _ (o : Config) where
  pub record IsWithin (messages client server : ℕ) : Type 0 where
    pub in_window : messages ≤ o.client_max_messages_per_window
    pub spent : client ≤ o.client_max_session_bytes
    pub received : server ≤ o.server_max_session_bytes

  pub record IsOrdered (initialize initialized shutdown : Bool) (documents : Map Document)
      : Type 0 where
    pub began : initialized ≡ true → initialize ≡ true
    pub finished : shutdown ≡ true → initialized ≡ true
    pub idle : initialized ≡ false → documents ≡ []

  pub record IsValid (g : Guard) : Type 0 where
    pub documents_valid : HasTracked o g
    pub budgets_valid :
        IsWithin g.client_messages_in_window g.client_session_bytes g.server_session_bytes
    pub order_valid : IsOrdered g.initialize_seen g.initialized_seen g.shutdown_seen g.documents

  -- A new guard is valid.
  pub init-IsValid : (now : ℕ) → IsValid (init now)
  unfolding init total
  init-IsValid now = record {
    documents_valid = record { counted = refl; fits = omega arith; tracked = tt; distinct = tt };
    budgets_valid = omega arith;
    order_valid = record {
      began = λ e. ground arith;
      finished = λ e. ground arith;
      idle = λ e. refl;
    };
  }

  roll_window-IsValid : (g : Guard) (now : ℕ) → IsValid g → IsValid (roll_window o g now)
  unfolding roll_window
  roll_window-IsValid g now h =
      elim (Bool-cases (leb (g.client_window_started_at + o.client_rate_window_ms) now)) [
        | inl e ↦ rw e (record {
          documents_valid = h.documents_valid;
          budgets_valid = omega arith;
          order_valid = h.order_valid;
        })
        | inr e ↦ rw e h
      ]

  charge-IsValid : (g : Guard) (size : ℕ) → IsValid g → IsValid (charge o g size).0
  unfolding charge
  charge-IsValid g size h =
      elim (Bool-cases (leb o.client_max_messages_per_window g.client_messages_in_window)) [
        | inl e ↦ rw e h
        | inr e ↦
            elim (Bool-cases (ltb o.client_max_session_bytes (g.client_session_bytes + size))) [
              | inl f ↦ rw (e, f) h
              | inr f ↦
                  rw (e, f)
                    (record {
                      documents_valid = h.documents_valid;
                      budgets_valid = ground arith;
                      order_valid = h.order_valid;
                    })
            ]
      ]

  edits-budgets :
      (g : Guard) {r : Guard × Verdict}
      → DocumentStep o g r
      → IsWithin g.client_messages_in_window g.client_session_bytes g.server_session_bytes
      → IsWithin r.0.client_messages_in_window r.0.client_session_bytes r.0.server_session_bytes
  edits-budgets g (refuses reason) h = h
  edits-budgets g keeps h = h
  edits-budgets g (opens uri text version a c s f) h = h
  edits-budgets g (changes uri text version document made d n a s f) h = h
  edits-budgets g (saves uri text document d s f) h = h
  edits-budgets g (closes uri document d) h = h

  edits-order :
      (g : Guard) {r : Guard × Verdict}
      → DocumentStep o g r
      → g.initialized_seen ≡ true
      → IsOrdered g.initialize_seen g.initialized_seen g.shutdown_seen g.documents
      → IsOrdered r.0.initialize_seen r.0.initialized_seen r.0.shutdown_seen r.0.documents
  edits-order g (refuses reason) e h = h
  edits-order g keeps e h = h
  edits-order g (opens uri text version a c s f) e h = record {
    began = h.began;
    finished = h.finished;
    idle = λ q. ground arith;
  }
  edits-order g (changes uri text version document made d n a s f) e h = record {
    began = h.began;
    finished = h.finished;
    idle = λ q. ground arith;
  }
  edits-order g (saves uri text document d s f) e h = record {
    began = h.began;
    finished = h.finished;
    idle = λ q. ground arith;
  }
  edits-order g (closes uri document d) e h = record {
    began = h.began;
    finished = h.finished;
    idle = λ q. ground arith;
  }

  step-IsValid : (g : Guard) {r : Guard × Verdict} → MessageStep o g r → IsValid g → IsValid r.0
  step-IsValid g (stops reason) h = h
  step-IsValid g passes h = h
  step-IsValid g (initializes e) h = record {
    documents_valid = h.documents_valid;
    budgets_valid = h.budgets_valid;
    order_valid = record {
      began = λ _. refl;
      finished = h.order_valid.finished;
      idle = h.order_valid.idle;
    };
  }
  step-IsValid g (is_initialized e f) h = record {
    documents_valid = h.documents_valid;
    budgets_valid = h.budgets_valid;
    order_valid = record { began = λ _. e; finished = λ _. refl; idle = λ q. ground arith };
  }
  step-IsValid g (shuts_down e f) h = record {
    documents_valid = h.documents_valid;
    budgets_valid = h.budgets_valid;
    order_valid = record {
      began = h.order_valid.began;
      finished = λ _. e;
      idle = h.order_valid.idle;
    };
  }
  step-IsValid g (edits e f d) h = record {
    documents_valid = step-HasTracked o g d h.documents_valid;
    budgets_valid = edits-budgets g d h.budgets_valid;
    order_valid = edits-order g d e h.order_valid;
  }

  and_then-IsValid :
      (r : Guard × Verdict) (k : Guard → Guard × Verdict)
      → IsValid r.0
      → ((g : Guard) → IsValid g → IsValid (k g).0)
      → IsValid (and_then r k).0
  and_then-IsValid (g, accepted) k h keep = keep g h
  and_then-IsValid (g, rejected code reason) k h keep = h

  -- From a valid guard, whatever the browser sends and whenever, `validate_client_message` leaves a
  -- valid guard: the open documents are session documents with distinct URIs, each safe and with
  -- its exact byte count, their total is the counter and within the limit, the three budgets are
  -- kept, and the life cycle is in order.
  pub validate_client_message-IsValid :
      (g : Guard) (now : ℕ) (content : Text)
      → IsValid g
      → IsValid (validate_client_message o g now content).0
  unfolding validate_client_message
  validate_client_message-IsValid g now content h =
      let cleared : Guard = record g { pending_document_update = none } in
      let cleared_valid : IsValid cleared = record {
        documents_valid = h.documents_valid;
        budgets_valid = h.budgets_valid;
        order_valid = h.order_valid;
      } in
      and_then-IsValid (consume_client_budget o cleared now (byte_length content))
        (λ charged. validate_content o charged content)
        (charge-IsValid (roll_window o cleared now) (byte_length content)
          (roll_window-IsValid cleared now cleared_valid))
        (λ charged v. step-IsValid charged (validate_content-step o charged content) v)

  -- From a valid guard, whatever clangd sends and however much waits to be sent,
  -- `validate_server_message` leaves a valid guard.
  pub validate_server_message-IsValid :
      (g : Guard) (content : Text) (buffered_amount : ℕ)
      → IsValid g
      → IsValid (validate_server_message o g content buffered_amount).0
  unfolding validate_server_message
  validate_server_message-IsValid g content buffered_amount h =
      let size = byte_length content in
      if_cases Keeps (ltb o.server_max_message_bytes size) (λ _. h)
        (λ _.
          if_cases Keeps (ltb o.server_max_buffered_bytes (buffered_amount + size)) (λ _. h)
            (λ _.
              if_cases Keeps (ltb o.server_max_session_bytes (g.server_session_bytes + size))
                (λ _. h)
                (λ within. elim (Option-cases (parse_json_object o content)) [
                  | inl e ↦ rw e h
                  | inr (message, e) ↦ rw e (
                      if_cases Keeps (not (is_version_two message)) (λ _. h)
                        (λ _.
                          if_cases Keeps
                            (has_unexpected_uri o.document_uris o.workspace_uri message) (λ _. h)
                            (λ _. record {
                              documents_valid = h.documents_valid;
                              budgets_valid = record {
                                in_window = h.budgets_valid.in_window;
                                spent = h.budgets_valid.spent;
                                received = ground arith;
                              };
                              order_valid = h.order_valid;
                            })))
                ])))
    where
      Keeps : Guard × Verdict → Type 0
      Keeps r = IsValid r.0
