-- ===== src/Manager/System/Admission.antt =====
-- The quotas of apps/lsp/src/session-manager.ts in every reachable state.
use smart_c_playground.Prelude.{ℕ, ◌≡◌, refl, Bool, true, false, some, arith}
use smart_c_playground.Text.{Text}
use smart_c_playground.Map.{get, set, delete, total, total-delete, total-set-le}
use smart_c_playground.Manager.State.{Request, Config, init}
use smart_c_playground.Manager.Quota.{release}
use smart_c_playground.Manager.Sessions.{made_session, create_managed_session, finish_create}
use smart_c_playground.Manager.System.{
  System, start, Step, begins, finishes, authorizes, discards, attaches, touches, closes, cleans,
  fires, shuts_down, Reach, here, next,
}
use smart_c_playground.Manager.System.Owners.{
  of_visitor, of_ip, close_session-NoMore, shutdown-NoMore, finish_cleanup-NoMore,
  fire_timer-NoMore, touch_session-NoMore, authorize_web_socket-NoMore, discard-NoMore,
  attach_web_socket-NoMore,
}
use smart_c_playground.Manager.System.Quotas.{
  by_visitor, by_ip, HoldsQuotas, kept-HoldsQuotas, begun-HoldsQuotas, released-AreCounted,
}

module _ (o : Config) where
  finished-HoldsQuotas :
      (s : System) (id : Text) (request : Request) (written : Bool) (now : ℕ) (nonce : Text)
      → get s.creating id ≡ some request
      → HoldsQuotas o s
      → HoldsQuotas o (record {
        manager = (finish_create o s.manager id request written now nonce).0;
        creating = delete s.creating id;
      })
  unfolding finish_create release made_session create_managed_session
  finished-HoldsQuotas s id request true now nonce e h =
      let made = (made_session o id request now nonce).0 in
      record {
        counted =
            released-AreCounted o (record s.manager { sessions = set s.manager.sessions id made })
              s.creating id request e
              (record {
                count = h.counted.count;
                visitors = h.counted.visitors;
                ips = h.counted.ips;
                visitors_distinct = h.counted.visitors_distinct;
                ips_distinct = h.counted.ips_distinct;
                visitors_positive = h.counted.visitors_positive;
                ips_positive = h.counted.ips_positive;
              });
        within = record {
          all = omega (
            arith,
            h.within.all,
            total-delete (λ _. 1) s.creating id request e,
            total-set-le (λ _. 1) s.manager.sessions id made,
          );
          of_one_visitor = λ v. omega (
            arith,
            h.within.of_one_visitor v,
            total-delete (by_visitor v) s.creating id request e,
            total-set-le (of_visitor v) s.manager.sessions id made,
          );
          of_one_ip = λ v. omega (
            arith,
            h.within.of_one_ip v,
            total-delete (by_ip v) s.creating id request e,
            total-set-le (of_ip v) s.manager.sessions id made,
          );
        };
      }
  finished-HoldsQuotas s id request false now nonce e h = record {
    counted = released-AreCounted o s.manager s.creating id request e h.counted;
    within = record {
      all = omega (arith, h.within.all, total-delete (λ _. 1) s.creating id request e);
      of_one_visitor = λ v.
          omega
            (arith, h.within.of_one_visitor v, total-delete (by_visitor v) s.creating id request e);
      of_one_ip = λ ip.
          omega (arith, h.within.of_one_ip ip, total-delete (by_ip ip) s.creating id request e);
    };
  }

  Step-HoldsQuotas : (s t : System) → Step o s t → HoldsQuotas o s → HoldsQuotas o t
  Step-HoldsQuotas s _ (begins id request reserved fresh e) h =
      begun-HoldsQuotas o s id request reserved fresh e h
  Step-HoldsQuotas s _ (finishes id request written now nonce e) h =
      finished-HoldsQuotas s id request written now nonce e h
  Step-HoldsQuotas s _ (authorizes id path ticket now) h =
      kept-HoldsQuotas o s _ (authorize_web_socket-NoMore o s.manager id path ticket now) h
  Step-HoldsQuotas s _ (discards id path ticket now) h =
      kept-HoldsQuotas o s _ (discard-NoMore o s.manager id path ticket now) h
  Step-HoldsQuotas s _ (attaches id web_socket clangd streams now) h =
      kept-HoldsQuotas o s _ (attach_web_socket-NoMore o s.manager id web_socket clangd streams now)
        h
  Step-HoldsQuotas s _ (touches id now) h =
      kept-HoldsQuotas o s _ (touch_session-NoMore o s.manager id now) h
  Step-HoldsQuotas s _ (closes id code reason) h =
      kept-HoldsQuotas o s _ (close_session-NoMore s.manager id code reason) h
  Step-HoldsQuotas s _ (cleans id) h = kept-HoldsQuotas o s _ (finish_cleanup-NoMore s.manager id) h
  Step-HoldsQuotas s _ (fires id timer now reason) h =
      kept-HoldsQuotas o s _ (fire_timer-NoMore s.manager id timer now reason) h
  Step-HoldsQuotas s _ shuts_down h = kept-HoldsQuotas o s _ (shutdown-NoMore s.manager) h

  start-HoldsQuotas : HoldsQuotas o start
  unfolding init get total
  start-HoldsQuotas = record {
    counted = record {
      count = refl;
      visitors = λ v. refl;
      ips = λ ip. refl;
      visitors_distinct = tt;
      ips_distinct = tt;
      visitors_positive = tt;
      ips_positive = tt;
    };
    within = record {
      all = omega arith;
      of_one_visitor = λ v. omega arith;
      of_one_ip = λ ip. omega arith;
    };
  }

  -- In every state that any interleaving of creations, requests, sockets, timers and cleanups
  -- reaches from the start, the sessions and the creations in progress together are within the
  -- limit in all, for each visitor and for each address, and the pending counters are the numbers
  -- of creations in progress.
  pub Reach-HoldsQuotas : (s : System) → Reach o start s → HoldsQuotas o s
  Reach-HoldsQuotas _ here = start-HoldsQuotas
  Reach-HoldsQuotas _ (next {t = t} {u = u} before step) =
      Step-HoldsQuotas t u step (Reach-HoldsQuotas t before)
