-- ===== src/Manager/Closing/Everything.antt =====
-- shutdown of apps/lsp/src/session-manager.ts: every session of the table is taken down, and no new one
-- is reserved.
use smart_c_playground.Prelude.{
  ◌≡◌, ◌≢◌, ◌⊎◌, refl, sym, ◌∙◌, subst, inl, inr, true, none, some, List, [], ◌∷◌, String, arith,
  Bool-cases, none≢some, Option-cases,
}
use mathlib.Core.Option.{some_inj}
use smart_c_playground.Text.{Text, text_eq, text_eq_iff, text_eq_refl}
use smart_c_playground.Map.{Map, get, get-set, get-delete}
use smart_c_playground.Manager.State.{Session, Cleanup, Manager}
use smart_c_playground.Manager.Closing.{close_session, close_all, keys, shutdown}
use smart_c_playground.Manager.Closing.Shutdown.{
  disposed, Closing, joined, absent, taken, close_session-Closing, IsClosable, Closing-IsClosable,
  Closing-others, Closing-gone, Closing-keeps,
}

-- The cleanup that shutdown starts for a session.
pub restart : Session → Cleanup
restart session = record {
  session = some (disposed session);
  close_code = 1012;
  close_reason = "Service is restarting";
}

abbrev Within : Text → List Text → Type 0
Within k [] = ⊥
Within k (j ∷ js) = (j ≡ k) ⊎ Within k js

get-Within :
    (m : Map Session) (k : Text) (session : Session) → get m k ≡ some session → Within k (keys m)
unfolding get
get-Within [] k session e = none≢some e
get-Within ((j, w) ∷ m) k session e = elim (Bool-cases (text_eq j k)) [
  | inl same ↦ inl ((text_eq_iff j k).0 same)
  | inr other ↦ inr (get-Within m k session (rw other at e))
]

closed_itself :
    (m : Manager) (id : Text) (session : Session) (n : Manager)
    → Closing m id 1012 "Service is restarting" n
    → IsClosable m
    → get m.sessions id ≡ some session
    → (get n.sessions id ≡ none) × (get n.cleanup_promises id ≡ some (restart session))
unfolding restart
closed_itself m id session _ (joined cleanup e) h g =
    absurd (none≢some (sym (h.settled id session g) ∙ e))
closed_itself m id session _ (absent e f) h g = absurd (none≢some (sym f ∙ g))
closed_itself m id session _ (taken old e f) h g =
    let same : old ≡ session = some_inj.0 (sym f ∙ g) in
    (
      get-delete m.sessions id id h.distinct ∙ rw (text_eq_refl id) refl,
      get-set m.cleanup_promises id id _ ∙ rw (text_eq_refl id, same) refl,
    )

close_all-keeps :
    (m : Manager) (ids : List Text) (k : Text) (cleanup : Cleanup)
    → IsClosable m
    → (get m.sessions k ≡ none) × (get m.cleanup_promises k ≡ some cleanup)
    → (get (close_all m ids).sessions k ≡ none)
      × (get (close_all m ids).cleanup_promises k ≡ some cleanup)
unfolding close_all
close_all-keeps m [] k cleanup h p = p
close_all-keeps m (id ∷ ids) k cleanup h (gone, kept) =
    let reason : String = "Service is restarting" in
    let c = close_session-Closing m id 1012 reason in
    close_all-keeps (close_session m id 1012 reason) ids k cleanup
      (Closing-IsClosable m id 1012 reason _ c h)
      (
        Closing-gone m id 1012 reason _ k c h gone,
        Closing-keeps m id 1012 reason _ k cleanup c kept,
      )

close_all-closes :
    (m : Manager) (ids : List Text) (k : Text) (session : Session)
    → IsClosable m
    → Within k ids
    → get m.sessions k ≡ some session
    → (get (close_all m ids).sessions k ≡ none)
      × (get (close_all m ids).cleanup_promises k ≡ some (restart session))
unfolding close_all
close_all-closes m [] k session h w g = elim w [ ]
close_all-closes m (id ∷ ids) k session h w g =
    let reason : String = "Service is restarting" in
    let n = close_session m id 1012 reason in
    let c = close_session-Closing m id 1012 reason in
    let closable = Closing-IsClosable m id 1012 reason n c h in
    elim (Bool-cases (text_eq id k)) [
      | inl same ↦
          let is_it = (text_eq_iff id k).0 same in
          close_all-keeps n ids k (restart session) closable (
            subst
              (λ j. (get n.sessions j ≡ none) × (get n.cleanup_promises j ≡ some (restart session)))
              is_it
              (closed_itself m id session n c h
                (subst (λ j. get m.sessions j ≡ some session) (sym is_it) g)))
      | inr other ↦
          let isnt : id ≢ k = λ q. ground (arith, (text_eq_iff id k).1 q, other) in
          elim w [
            | inl q ↦ absurd (isnt q)
            | inr rest ↦
                close_all-closes n ids k session closable rest
                  (Closing-others m id 1012 reason n k session c h g isnt)
          ]
    ]

-- If the session IDs are distinct and no session of the table has a cleanup in progress, `shutdown`
-- takes every session out of the table and leaves a cleanup for it, in the state `disposing` with
-- its timers cleared, that closes its socket with 1012.
pub shutdown_closes :
    (m : Manager)
    → IsClosable m
    → (id : Text) (session : Session) → get m.sessions id ≡ some session
    → (get (shutdown m).sessions id ≡ none)
      × (get (shutdown m).cleanup_promises id ≡ some (restart session))
unfolding shutdown
shutdown_closes m h id session g =
    close_all-closes (record m { shutting_down = true }) (keys m.sessions) id session
      (record { distinct = h.distinct; settled = h.settled }) (get-Within m.sessions id session g) g

close_all-gone :
    (m : Manager) (ids : List Text) (k : Text)
    → IsClosable m
    → get m.sessions k ≡ none
    → get (close_all m ids).sessions k ≡ none
unfolding close_all
close_all-gone m [] k h gone = gone
close_all-gone m (id ∷ ids) k h gone =
    let reason : String = "Service is restarting" in
    let c = close_session-Closing m id 1012 reason in
    close_all-gone (close_session m id 1012 reason) ids k
      (Closing-IsClosable m id 1012 reason _ c h) (Closing-gone m id 1012 reason _ k c h gone)

-- Where the cleanups that are in progress are of no session of the table, `shutdown` leaves no session.
shutdown_empties : (m : Manager) → IsClosable m → (k : Text) → get (shutdown m).sessions k ≡ none
unfolding shutdown
shutdown_empties m h k = elim (Option-cases (get m.sessions k)) [
  | inr (session, e) ↦ (shutdown_closes m h k session e).0
  | inl e ↦
      close_all-gone (record m { shutting_down = true }) (keys m.sessions) k
        (record { distinct = h.distinct; settled = h.settled }) e
]

pub shutdown-sessions : (m : Manager) → IsClosable m → (shutdown m).sessions ≡ []
unfolding get
shutdown-sessions m h = empty (shutdown m).sessions (shutdown_empties m h)
  where
    empty : (sessions : Map Session) → ((k : Text) → get sessions k ≡ none) → sessions ≡ []
    empty [] g = refl
    empty ((id, session) ∷ sessions) g =
        absurd (none≢some {a = session} (sym (g id) ∙ rw (text_eq_refl id) refl))
