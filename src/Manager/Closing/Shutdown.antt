-- ===== src/Manager/Closing/Shutdown.antt =====
-- shutdown and closeSession of apps/lsp/src/session-manager.ts: what is left of the sessions.
use smart_c_playground.Prelude.{ℕ, ◌≡◌, ◌≢◌, inl, inr, none, some, String, arith, Option-cases}
use smart_c_playground.Text.{Text, text_eq_iff}
use smart_c_playground.Map.{get, set, delete, Distinct, get-set, get-delete, delete-Distinct}
use smart_c_playground.Manager.State.{Session, Cleanup, Manager, disposing}
use smart_c_playground.Manager.Closing.{perform_cleanup, close_session}

-- A session that its cleanup has taken out of the table, its timers cleared.
pub disposed : Session → Session
disposed session = record session {
  state = disposing;
  idle_timer = none;
  absolute_timer = none;
  ticket_timer = none;
}

-- What closeSession does: it joins a cleanup in progress, finds no session, or takes the session out of
-- the table and hands it to a new cleanup.
pub data Closing (m : Manager) (id : Text) (code : ℕ) (reason : String) : Manager → Type 0 where
  joined :
      (cleanup : Cleanup) → get m.cleanup_promises id ≡ some cleanup → Closing m id code reason m
  absent :
      get m.cleanup_promises id ≡ none
      → get m.sessions id ≡ none
      → Closing m id code reason (record m {
        cleanup_promises =
            set m.cleanup_promises id
              (record { session = none; close_code = code; close_reason = reason });
      })
  taken :
      (session : Session)
      → get m.cleanup_promises id ≡ none
      → get m.sessions id ≡ some session
      → Closing m id code reason (record m {
        sessions = delete m.sessions id;
        cleanup_promises = set m.cleanup_promises id (record {
          session = some (disposed session);
          close_code = code;
          close_reason = reason;
        });
      })

-- `close_session` joins a cleanup of the session that is in progress and changes nothing; or it
-- starts one for no session; or it takes the session out of the table into a new cleanup, in the
-- state `disposing` with its three timers cleared.
pub close_session-Closing :
    (m : Manager) (id : Text) (code : ℕ) (reason : String)
    → Closing m id code reason (close_session m id code reason)
unfolding close_session perform_cleanup disposed
close_session-Closing m id code reason = elim (Option-cases (get m.cleanup_promises id)) [
  | inr (cleanup, e) ↦ rw e (joined cleanup e)
  | inl e ↦ elim (Option-cases (get m.sessions id)) [
    | inl f ↦ rw (e, f, perform_cleanup) (absent e f)
    | inr (session, f) ↦ rw (e, f, perform_cleanup) (taken session e f)
  ]
]

-- The keys of the sessions are distinct, and no session that is in the table has a cleanup in progress.
pub record IsClosable (m : Manager) : Type 0 where
  pub distinct : Distinct m.sessions
  pub settled :
      (id : Text) (session : Session)
      → get m.sessions id ≡ some session
      → get m.cleanup_promises id ≡ none

module _ (m : Manager) (id : Text) (code : ℕ) (reason : String) where
  pub Closing-IsClosable : (n : Manager) → Closing m id code reason n → IsClosable m → IsClosable n
  Closing-IsClosable _ (joined cleanup e) h = h
  Closing-IsClosable _ (absent e f) h = record {
    distinct = h.distinct;
    settled = λ k session g. ground (
      arith,
      get-set m.cleanup_promises id k
          (record { session = none; close_code = code; close_reason = reason }),
      text_eq_iff id k,
      h.settled k session,
    );
  }
  Closing-IsClosable _ (taken session e f) h = record {
    distinct = delete-Distinct m.sessions id h.distinct;
    settled = λ k other g. ground (
      arith,
      get-set m.cleanup_promises id k
          (record { session = some (disposed session); close_code = code; close_reason = reason }),
      get-delete m.sessions id k h.distinct,
      h.settled k other,
    );
  }

  -- A session of the table keeps its place, or is the one that was closed.
  pub Closing-others :
      (n : Manager) (k : Text) (session : Session)
      → Closing m id code reason n
      → IsClosable m
      → get m.sessions k ≡ some session
      → id ≢ k
      → get n.sessions k ≡ some session
  Closing-others _ k session (joined cleanup e) h g q = g
  Closing-others _ k session (absent e f) h g q = g
  Closing-others _ k session (taken old e f) h g q =
      ground (arith, get-delete m.sessions id k h.distinct, text_eq_iff id k)

  pub Closing-gone :
      (n : Manager) (k : Text)
      → Closing m id code reason n
      → IsClosable m
      → get m.sessions k ≡ none
      → get n.sessions k ≡ none
  Closing-gone _ k (joined cleanup e) h g = g
  Closing-gone _ k (absent e f) h g = g
  Closing-gone _ k (taken old e f) h g = ground (arith, get-delete m.sessions id k h.distinct)

  pub Closing-keeps :
      (n : Manager) (k : Text) (cleanup : Cleanup)
      → Closing m id code reason n
      → get m.cleanup_promises k ≡ some cleanup
      → get n.cleanup_promises k ≡ some cleanup
  Closing-keeps _ k cleanup (joined other e) g = g
  Closing-keeps _ k cleanup (absent e f) g = ground (
    arith,
    get-set m.cleanup_promises id k
        (record { session = none; close_code = code; close_reason = reason }),
    text_eq_iff id k,
  )
  Closing-keeps _ k cleanup (taken session e f) g = ground (
    arith,
    get-set m.cleanup_promises id k
        (record { session = some (disposed session); close_code = code; close_reason = reason }),
    text_eq_iff id k,
  )
