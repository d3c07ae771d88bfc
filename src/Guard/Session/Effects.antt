-- ===== src/Guard/Session/Effects.antt =====
-- What a message of the browser leaves alone, when it is rejected or the session is not active.
use smart_c_playground.Prelude.{
  subst, sym, ℕ, ◌+◌, ◌≡◌, ◌⊎◌, ◌∙◌, refl, inl, inr, true, false, none, ltb, leb, if_cases, String,
}
use mathlib.Core.Bool.{false≢true}
use smart_c_playground.Text.{Text, byte_length}
use smart_c_playground.Guard.State.{Verdict, accepted, rejected, Config, Guard}
use smart_c_playground.Guard.Documents.Steps.{refuses, keeps, opens, changes, saves, closes}
use smart_c_playground.Guard.Session.{
  roll_window, charge, consume_client_budget, validate_content, and_then, validate_client_message,
}
use smart_c_playground.Guard.Session.Steps.{
  MessageStep, stops, passes, initializes, is_initialized, shuts_down, edits, validate_content-step,
}

-- The life cycle and the documents are as they were, and no update is pending.
pub record IsUntouched (g h : Guard) : Type 0 where
  pub same_initialize : h.initialize_seen ≡ g.initialize_seen
  pub same_initialized : h.initialized_seen ≡ g.initialized_seen
  pub same_shutdown : h.shutdown_seen ≡ g.shutdown_seen
  pub same_documents : h.documents ≡ g.documents
  pub same_bytes : h.document_bytes ≡ g.document_bytes
  pub nothing_pending : h.pending_document_update ≡ none

module _ (o : Config) where
  roll_window-IsUntouched :
      (f g : Guard) (now : ℕ) → IsUntouched f g → IsUntouched f (roll_window o g now)
  unfolding roll_window
  roll_window-IsUntouched f g now h =
      if_cases (IsUntouched f) (leb (g.client_window_started_at + o.client_rate_window_ms) now)
        (λ _. record {
          same_initialize = h.same_initialize;
          same_initialized = h.same_initialized;
          same_shutdown = h.same_shutdown;
          same_documents = h.same_documents;
          same_bytes = h.same_bytes;
          nothing_pending = h.nothing_pending;
        })
        (λ _. h)

  charge-IsUntouched :
      (f g : Guard) (size : ℕ) → IsUntouched f g → IsUntouched f (charge o g size).0
  unfolding charge
  charge-IsUntouched f g size h =
      if_cases (λ (r : Guard × Verdict). IsUntouched f r.0)
        (leb o.client_max_messages_per_window g.client_messages_in_window) (λ _. h)
        (λ _.
          if_cases (λ (r : Guard × Verdict). IsUntouched f r.0)
            (ltb o.client_max_session_bytes (g.client_session_bytes + size)) (λ _. h)
            (λ _. record {
              same_initialize = h.same_initialize;
              same_initialized = h.same_initialized;
              same_shutdown = h.same_shutdown;
              same_documents = h.same_documents;
              same_bytes = h.same_bytes;
              nothing_pending = h.nothing_pending;
            }))

  -- What follows for a message from what holds of each step.
  pub by_step {ℓ} :
      (g : Guard) (now : ℕ) (content : Text) (P : Guard × Verdict → Type ℓ)
      → ((h : Guard) (code : ℕ) (reason : String) → IsUntouched g h → P (h, rejected code reason))
      → ((h : Guard) (r : Guard × Verdict) → IsUntouched g h → MessageStep o h r → P r)
      → P (validate_client_message o g now content)
  unfolding validate_client_message consume_client_budget
  by_step g now content P denied stepped =
      let cleared : Guard = record g { pending_document_update = none } in
      go (charge o (roll_window o cleared now) (byte_length content)) (
        charge-IsUntouched g (roll_window o cleared now) (byte_length content)
          (roll_window-IsUntouched g cleared now fresh))
    where
      fresh : IsUntouched g (record g { pending_document_update = none })
      fresh = record {
        same_initialize = refl;
        same_initialized = refl;
        same_shutdown = refl;
        same_documents = refl;
        same_bytes = refl;
        nothing_pending = refl;
      }

      go :
          (r : Guard × Verdict)
          → IsUntouched g r.0
          → P (and_then r (λ charged. validate_content o charged content))
      go (charged, rejected code reason) u = denied charged code reason u
      go (charged, accepted) u =
          stepped charged (validate_content o charged content) u
            (validate_content-step o charged content)

  step_rejected :
      (g : Guard) {r : Guard × Verdict}
      → MessageStep o g r
      → (code : ℕ) (reason : String) → r.1 ≡ rejected code reason
      → r.0 ≡ g
  step_rejected g (stops _) code reason e = refl
  step_rejected g passes code reason e = refl
  step_rejected g (initializes _) code reason e = cc
  step_rejected g (is_initialized _ _) code reason e = cc
  step_rejected g (shuts_down _ _) code reason e = cc
  step_rejected g (edits _ _ (refuses _)) code reason e = refl
  step_rejected g (edits _ _ keeps) code reason e = refl
  step_rejected g (edits _ _ (opens uri text version a c s f)) code reason e = cc
  step_rejected g (edits _ _ (changes uri text version document made d n a s f)) code reason e = cc
  step_rejected g (edits _ _ (saves uri text document d s f)) code reason e = cc
  step_rejected g (edits _ _ (closes uri document d)) code reason e = cc

  -- If `validate_client_message` rejects a content, the life cycle and the documents with their
  -- byte count are as they were, and no update is pending.
  pub rejected-IsUntouched :
      (g : Guard) (now : ℕ) (content : Text) (code : ℕ) (reason : String)
      → (validate_client_message o g now content).1 ≡ rejected code reason
      → IsUntouched g (validate_client_message o g now content).0
  rejected-IsUntouched g now content code reason =
      by_step g now content (λ r. r.1 ≡ rejected code reason → IsUntouched g r.0) (λ h _ _ u _. u)
        (λ h r u step e. subst (IsUntouched g) (sym (step_rejected h step code reason e)) u)

  -- Before `initialized` or after `shutdown`, whatever the browser sends, the documents and their
  -- byte count stay as they are and no update is pending.
  pub inactive-same_documents :
      (g : Guard) (now : ℕ) (content : Text)
      → (g.initialized_seen ≡ false) ⊎ (g.shutdown_seen ≡ true)
      → ((validate_client_message o g now content).0.documents ≡ g.documents)
        × ((validate_client_message o g now content).0.document_bytes ≡ g.document_bytes)
        × ((validate_client_message o g now content).0.pending_document_update ≡ none)
  inactive-same_documents g now content inactive =
      by_step g now content Stays (λ h _ _ u. (u.same_documents, u.same_bytes, u.nothing_pending))
        stays
    where
      Stays : Guard × Verdict → Type 0
      Stays r =
          (r.0.documents ≡ g.documents)
          × (r.0.document_bytes ≡ g.document_bytes)
          × (r.0.pending_document_update ≡ none)

      stays : (h : Guard) (r : Guard × Verdict) → IsUntouched g h → MessageStep o h r → Stays r
      stays h r u (stops _) = (u.same_documents, u.same_bytes, u.nothing_pending)
      stays h r u passes = (u.same_documents, u.same_bytes, u.nothing_pending)
      stays h r u (initializes _) = (u.same_documents, u.same_bytes, u.nothing_pending)
      stays h r u (is_initialized _ _) = (u.same_documents, u.same_bytes, u.nothing_pending)
      stays h r u (shuts_down _ _) = (u.same_documents, u.same_bytes, u.nothing_pending)
      stays h r u (edits i s d) = absurd (active u inactive i s)
        where
          active :
              IsUntouched g h
              → (g.initialized_seen ≡ false) ⊎ (g.shutdown_seen ≡ true)
              → h.initialized_seen ≡ true
              → h.shutdown_seen ≡ false
              → ⊥
          active u (inl e) i s = false≢true (sym e ∙ (sym u.same_initialized ∙ i))
          active u (inr e) i s = false≢true (sym s ∙ (u.same_shutdown ∙ e))
