-- ===== src/Upgrade/Spent.antt =====
-- How often an authorization that apps/lsp/src/websocket.ts notes for a request is used.
use smart_c_playground.Prelude.{
  ℕ, ◌≡◌, refl, sym, none≢some, ◌∙◌, Bool, false, Option, none, some, List, [], ◌∷◌, String,
  if_cases,
}
use smart_c_playground.Text.{Text, text_eq, text_eq_refl}
use smart_c_playground.Map.{
  Map, get, delete, get-set, get-delete, set-Distinct, delete-Distinct, Distinct,
}
use smart_c_playground.Manager.State.{Authorization, authorized_as, unauthorized, Config, Manager}
use smart_c_playground.Upgrade.{
  Request, Upgrades, authorize_upgrade_request, record_authorization, verify_client, drop_pending,
  socket_closes, upgrade_fails, attach_pending, upgrade, client_error,
}

-- A call of one of the callbacks, for a request.
pub data Call : Type 0 where
  verifies : Request → (now : ℕ) → Call
  upgrades : Request → (web_socket clangd : ℕ) → (streams : Bool) → (now : ℕ) → Call
  closes : Request → Call
  fails : Request → Call
  breaks : Request → (now : ℕ) → Call

module _ (pathname_of : Text → Option Text) (o : Config) (allowed_origin : Text) where
  unfoldable pub call : Upgrades → Call → Upgrades
  call u (verifies q now) = (verify_client pathname_of o allowed_origin u q now).0
  call u (upgrades q web_socket clangd streams now) =
      (upgrade pathname_of o allowed_origin u q web_socket clangd streams now).0
  call u (closes q) = socket_closes pathname_of o allowed_origin u q
  call u (fails q) = upgrade_fails pathname_of o allowed_origin u q
  call u (breaks q now) = client_error pathname_of o allowed_origin u q now

  unfoldable pub calls : Upgrades → List Call → Upgrades
  unfolding call
  calls u [] = u
  calls u (c ∷ cs) = calls (call u c) cs

  module _ (request : Request) where
    -- The request is not verified again.
    abbrev pub IsApart : Call → Type 0
    IsApart (verifies q now) = text_eq q.name request.name ≡ false
    IsApart (upgrades q web_socket clangd streams now) = Unit
    IsApart (closes q) = Unit
    IsApart (fails q) = Unit
    IsApart (breaks q now) = Unit

    -- The call uses the request's authorization, if there is one.
    abbrev pub Uses : Call → Type 0
    Uses (verifies q now) = ⊥
    Uses (upgrades q web_socket clangd streams now) = q ≡ request
    Uses (closes q) = q ≡ request
    Uses (fails q) = q ≡ request
    Uses (breaks q now) = ⊥

    abbrev pub AreApart : List Call → Type 0
    AreApart [] = Unit
    AreApart (c ∷ cs) = IsApart c × AreApart cs

    -- Nothing is noted for the request.
    abbrev pub IsSpent : Upgrades → Type 0
    IsSpent u =
        (get u.pending_authorizations request.name ≡ none) × Distinct u.pending_authorizations

    delete-IsSpent :
        (m : Map Text) (name : Text)
        → Distinct m
        → get m request.name ≡ none
        → get (delete m name) request.name ≡ none
    delete-IsSpent m name d h =
        get-delete m name request.name d
        ∙ if_cases (λ (r : Option Text). r ≡ none) (text_eq name request.name) (λ _. refl) (λ _. h)

    drop-IsSpent :
        (u : Upgrades) (q : Request) (found : Option Text) (code : ℕ) (reason : String)
        → IsSpent u
        → IsSpent (drop_pending pathname_of o allowed_origin u q found code reason)
    unfolding drop_pending
    drop-IsSpent u q none code reason s = s
    drop-IsSpent u q (some id) code reason (h, d) = (
      delete-IsSpent u.pending_authorizations q.name d h,
      delete-Distinct u.pending_authorizations q.name d,
    )

    attach-IsSpent :
        (u : Upgrades) (q : Request) (found : Option Text) (web_socket clangd : ℕ) (streams : Bool)
        (now : ℕ)
        → IsSpent u
        → IsSpent
            (attach_pending pathname_of o allowed_origin u q found web_socket clangd streams now).0
    unfolding attach_pending
    attach-IsSpent u q none web_socket clangd streams now s = s
    attach-IsSpent u q (some id) web_socket clangd streams now (h, d) = (
      delete-IsSpent u.pending_authorizations q.name d h,
      delete-Distinct u.pending_authorizations q.name d,
    )

    record-IsSpent :
        (u : Upgrades) (q : Request) (r : Manager × Authorization)
        → text_eq q.name request.name ≡ false
        → IsSpent u
        → IsSpent (record_authorization pathname_of o allowed_origin u q r).0
    unfolding record_authorization
    record-IsSpent u q (m, unauthorized status code) apart s = s
    record-IsSpent u q (m, authorized_as id) apart (h, d) = (
      get-set u.pending_authorizations q.name request.name id ∙ rw apart h,
      set-Distinct u.pending_authorizations q.name id d,
    )

    call-IsSpent : (u : Upgrades) (c : Call) → IsApart c → IsSpent u → IsSpent (call u c)
    unfolding call verify_client upgrade socket_closes upgrade_fails client_error
    call-IsSpent u (verifies q now) apart s =
        record-IsSpent u q (authorize_upgrade_request pathname_of o allowed_origin u.manager q now)
          apart s
    call-IsSpent u (upgrades q web_socket clangd streams now) apart s =
        attach-IsSpent u q (get u.pending_authorizations q.name) web_socket clangd streams now s
    call-IsSpent u (closes q) apart s = drop-IsSpent u q _ 1008 "WebSocket upgrade aborted" s
    call-IsSpent u (fails q) apart s = drop-IsSpent u q _ 1011 "WebSocket upgrade failed" s
    call-IsSpent u (breaks q now) apart s = s

    calls-IsSpent : (u : Upgrades) (cs : List Call) → AreApart cs → IsSpent u → IsSpent (calls u cs)
    unfolding calls
    calls-IsSpent u [] apart s = s
    calls-IsSpent u (c ∷ cs) apart s =
        calls-IsSpent (call u c) cs apart.1 (call-IsSpent u c apart.0 s)

    deleted-IsSpent :
        (m : Map Text) → Distinct m → (get (delete m request.name) request.name ≡ none)
    deleted-IsSpent m d =
        get-delete m request.name request.name d ∙ rw (text_eq_refl request.name) refl

    dropped-IsSpent :
        (u : Upgrades) (found : Option Text) (code : ℕ) (reason : String)
        → Distinct u.pending_authorizations
        → get u.pending_authorizations request.name ≡ found
        → IsSpent (drop_pending pathname_of o allowed_origin u request found code reason)
    unfolding drop_pending
    dropped-IsSpent u none code reason d e = (e, d)
    dropped-IsSpent u (some id) code reason d e = (
      deleted-IsSpent u.pending_authorizations d,
      delete-Distinct u.pending_authorizations request.name d,
    )

    attached-IsSpent :
        (u : Upgrades) (found : Option Text) (web_socket clangd : ℕ) (streams : Bool) (now : ℕ)
        → Distinct u.pending_authorizations
        → get u.pending_authorizations request.name ≡ found
        → IsSpent
            (attach_pending pathname_of o allowed_origin u request found web_socket clangd streams
              now).0
    unfolding attach_pending
    attached-IsSpent u none web_socket clangd streams now d e = (e, d)
    attached-IsSpent u (some id) web_socket clangd streams now d e = (
      deleted-IsSpent u.pending_authorizations d,
      delete-Distinct u.pending_authorizations request.name d,
    )

    used-IsSpent :
        (u : Upgrades) (c : Call) → Uses c → Distinct u.pending_authorizations → IsSpent (call u c)
    unfolding call upgrade socket_closes upgrade_fails
    used-IsSpent u (verifies q now) uses d = absurd uses
    used-IsSpent u (upgrades q web_socket clangd streams now) uses d =
        rw uses (attached-IsSpent u _ web_socket clangd streams now d refl)
    used-IsSpent u (closes q) uses d =
        rw uses (dropped-IsSpent u _ 1008 "WebSocket upgrade aborted" d refl)
    used-IsSpent u (fails q) uses d =
        rw uses (dropped-IsSpent u _ 1011 "WebSocket upgrade failed" d refl)
    used-IsSpent u (breaks q now) uses d = absurd uses

    drop-none :
        (u : Upgrades) (found : Option Text) (code : ℕ) (reason : String)
        → found ≡ none
        → drop_pending pathname_of o allowed_origin u request found code reason ≡ u
    unfolding drop_pending
    drop-none u none code reason e = refl
    drop-none u (some id) code reason e = absurd (none≢some (sym e))

    attach-none :
        (u : Upgrades) (found : Option Text) (web_socket clangd : ℕ) (streams : Bool) (now : ℕ)
        → found ≡ none
        → (attach_pending pathname_of o allowed_origin u request found web_socket clangd streams
            now).0
          ≡ u
    unfolding attach_pending
    attach-none u none web_socket clangd streams now e = refl
    attach-none u (some id) web_socket clangd streams now e = absurd (none≢some (sym e))

    spent-call : (u : Upgrades) (c : Call) → Uses c → IsSpent u → call u c ≡ u
    unfolding call upgrade socket_closes upgrade_fails
    spent-call u (verifies q now) uses s = absurd uses
    spent-call u (upgrades q web_socket clangd streams now) uses s =
        rw uses (attach-none u _ web_socket clangd streams now s.0)
    spent-call u (closes q) uses s = rw uses (drop-none u _ 1008 "WebSocket upgrade aborted" s.0)
    spent-call u (fails q) uses s = rw uses (drop-none u _ 1011 "WebSocket upgrade failed" s.0)
    spent-call u (breaks q now) uses s = absurd uses

    -- What is noted for a request is used once: after the upgrade, the close of its socket or the
    -- failure of its upgrade, and any calls of the five callbacks in which it is not verified
    -- again, a further upgrade, close or failure of that request changes neither the sessions nor
    -- the notes, so a late close does not take down the session that the upgrade has connected. The
    -- noted requests are distinct.
    pub authorization_used_once :
        (u : Upgrades) (first : Call) (between : List Call) (second : Call)
        → Distinct u.pending_authorizations
        → Uses first
        → AreApart between
        → Uses second
        → call (calls (call u first) between) second ≡ calls (call u first) between
    authorization_used_once u first between second d f apart s =
        spent-call (calls (call u first) between) second s
          (calls-IsSpent (call u first) between apart (used-IsSpent u first f d))
