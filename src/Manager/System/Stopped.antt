-- ===== src/Manager/System/Stopped.antt =====
-- After shutdown the manager of apps/lsp/src/session-manager.ts reserves no session; a creation that is
-- in progress still finishes.
use smart_c_playground.Prelude.{◌∷◌, [], ℕ, ◌≡◌, refl, ap, ◌∙◌, true, false}
use smart_c_playground.Text.{Text}
use smart_c_playground.Map.{Map, set}
use smart_c_playground.Manager.Closing.Shutdown.{IsClosable}
use smart_c_playground.Manager.Closing.Everything.{shutdown-sessions}
use smart_c_playground.Manager.State.{shutting_down, limit_error, Request, Session, Config, Manager}
use smart_c_playground.Manager.Quota.{reserve, release}
use smart_c_playground.Manager.Sessions.{made_session, finish_create}
use smart_c_playground.Manager.Closing.{shutdown}
use smart_c_playground.Manager.System.{
  System, with_manager, Step, begins, finishes, authorizes, discards, attaches, touches, closes,
  cleans, fires, shuts_down, Reach, here, next,
}
use smart_c_playground.Manager.System.Owners.{
  close_session-NoMore, shutdown-NoMore, shutdown-stops, finish_cleanup-NoMore, fire_timer-NoMore,
  touch_session-NoMore, authorize_web_socket-NoMore, discard-NoMore, attach_web_socket-NoMore,
}
use smart_c_playground.Manager.System.Quotas.{reserve-facts}

module _ (o : Config) where
  stays :
      (s t : System) → Step o s t → s.manager.shutting_down ≡ true → t.manager.shutting_down ≡ true
  unfolding finish_create release
  stays s _ (begins id request reserved fresh e) h =
      ap (λ m. m.shutting_down) (reserve-facts o s.manager reserved _ _ e).3 ∙ h
  stays s _ (finishes id request true now nonce e) h = h
  stays s _ (finishes id request false now nonce e) h = h
  stays s _ (authorizes id path ticket now) h =
      (authorize_web_socket-NoMore o s.manager id path ticket now).stopped h
  stays s _ (discards id path ticket now) h =
      (discard-NoMore o s.manager id path ticket now).stopped h
  stays s _ (attaches id web_socket clangd streams now) h =
      (attach_web_socket-NoMore o s.manager id web_socket clangd streams now).stopped h
  stays s _ (touches id now) h = (touch_session-NoMore o s.manager id now).stopped h
  stays s _ (closes id code reason) h = (close_session-NoMore s.manager id code reason).stopped h
  stays s _ (cleans id) h = (finish_cleanup-NoMore s.manager id).stopped h
  stays s _ (fires id timer now reason) h =
      (fire_timer-NoMore s.manager id timer now reason).stopped h
  stays s _ shuts_down h = (shutdown-NoMore s.manager).stopped h

  still_stopped :
      (s t : System) → Reach o s t → s.manager.shutting_down ≡ true → t.manager.shutting_down ≡ true
  still_stopped s _ here h = h
  still_stopped s _ (next {t = t} {u = u} before step) h =
      stays t u step (still_stopped s t before h)

  -- In every state that any steps reach after a shutdown, `reserve` refuses every visitor and
  -- address with `shutting_down`.
  pub reserve_after_shutdown :
      (s t : System)
      → Reach o (with_manager s (shutdown s.manager)) t
      → (visitor_id client_ip : Text)
      → reserve o t.manager visitor_id client_ip ≡ limit_error shutting_down
  unfolding reserve
  reserve_after_shutdown s t reach visitor_id client_ip =
      rw (still_stopped (with_manager s (shutdown s.manager)) t reach (shutdown-stops s.manager))
        refl

  -- Where the session IDs are distinct and no session of the table has a cleanup in progress,
  -- `shutdown` empties the table, and a creation whose files are written after it puts its session
  -- into that table, as the only one, while the manager is still shutting down.
  pub late_creation_survives :
      (m : Manager) (id : Text) (request : Request) (now : ℕ) (nonce : Text)
      → IsClosable m
      → (let late = (finish_create o (shutdown m) id request true now nonce).0 in
          (late.shutting_down ≡ true)
          × (late.sessions ≡ (id, (made_session o id request now nonce).0) ∷ []))
  unfolding finish_create release set
  late_creation_survives m id request now nonce h = (
    shutdown-stops m,
    ap (λ (sessions : Map Session). set sessions id (made_session o id request now nonce).0)
        (shutdown-sessions m h),
  )
