-- ===== src/Transport/Accounts.antt =====
-- The events with which a transport settles its promises and tells its owner, counted against the flags
-- of WebSocketLspTransport in apps/web/lib/client/lsp-transport.ts.
use smart_c_playground.Prelude.{
  flag, ℕ, ◌+◌, ◌≡◌, refl, Bool, true, false, not, List, [], ◌∷◌, ◌++◌, String, arith,
  if◌then◌else◌,
}
use smart_c_playground.Transport.{
  LspDisconnectReason, Event, open_resolved, open_rejected, closed_resolved, notified, delivered,
  sent, socket_close, thrown, Transport, after, settle_open, fail_open,
  notify_unexpected_disconnect, settle_closed,
}

-- How many events pass a test.
unfoldable pub count : (Event → Bool) → List Event → ℕ
count p [] = 0
count p (e ∷ es) = (if p e then 1 else 0) + count p es

pub count-append :
    (p : Event → Bool) (es fs : List Event) → count p (es ++ fs) ≡ count p es + count p fs
unfolding count
count-append p [] fs = omega arith
count-append p (e ∷ es) fs = omega (arith, count-append p es fs)

abbrev pub settles_open : Event → Bool
settles_open open_resolved = true
settles_open (open_rejected reason) = true
settles_open closed_resolved = false
settles_open (notified reason) = false
settles_open (delivered subscriber content) = false
settles_open (sent content) = false
settles_open (socket_close code reason) = false
settles_open (thrown reason) = false

abbrev pub settles_closed : Event → Bool
settles_closed open_resolved = false
settles_closed (open_rejected reason) = false
settles_closed closed_resolved = true
settles_closed (notified reason) = false
settles_closed (delivered subscriber content) = false
settles_closed (sent content) = false
settles_closed (socket_close code reason) = false
settles_closed (thrown reason) = false

abbrev pub notifies : Event → Bool
notifies open_resolved = false
notifies (open_rejected reason) = false
notifies closed_resolved = false
notifies (notified reason) = true
notifies (delivered subscriber content) = false
notifies (sent content) = false
notifies (socket_close code reason) = false
notifies (thrown reason) = false

-- The callbacks of the promise are there exactly until it settles, and so is the timer, if it is set.
abbrev pub IsSound : Transport → Type 0
IsSound t =
    (t.resolve_open ≡ not t.open_settled)
    × (t.reject_open ≡ not t.open_settled)
    × (t.open_settled ≡ true → t.open_timer ≡ false)

-- What is settled and told in a step is what the flags have gained.
abbrev pub Accounts : Transport → Transport × List Event → Type 0
Accounts t r =
    IsSound r.0
    × (count settles_open r.1 + flag t.open_settled ≡ flag r.0.open_settled)
    × (count settles_closed r.1 + flag (not t.resolve_closed) ≡ flag (not r.0.resolve_closed))
    × (count notifies r.1 + flag t.unavailable_notified ≡ flag r.0.unavailable_notified)

pub settle_open-Accounts : (t : Transport) → IsSound t → Accounts t (settle_open t)
unfolding settle_open count
settle_open-Accounts t s = ground arith

pub fail_open-Accounts :
    (reason : String) (t : Transport) → IsSound t → Accounts t (fail_open reason t)
unfolding fail_open count
fail_open-Accounts reason t s = ground arith

pub notify-Accounts :
    (reason : LspDisconnectReason) (t : Transport)
    → IsSound t
    → Accounts t (notify_unexpected_disconnect reason t)
unfolding notify_unexpected_disconnect count
notify-Accounts reason t s = ground arith

pub settle_closed-Accounts : (t : Transport) → IsSound t → Accounts t (settle_closed t)
unfolding settle_closed count
settle_closed-Accounts t s = ground arith

pub after-Accounts :
    (t : Transport) (r : Transport × List Event) (f : Transport → Transport × List Event)
    → Accounts t r
    → ((u : Transport) → IsSound u → Accounts u (f u))
    → Accounts t (after r f)
after-Accounts t (u, es) f a h =
    let b = h u a.0 in
    (
      b.0,
      omega (arith, a.1, b.1, count-append settles_open es (f u).1),
      omega (arith, a.2, b.2, count-append settles_closed es (f u).1),
      omega (arith, a.3, b.3, count-append notifies es (f u).1),
    )

-- The failure that an error, a close or the timer brings.
pub lost-Accounts :
    (message : String) (reason : LspDisconnectReason) (t : Transport)
    → IsSound t
    → Accounts t (after (fail_open message t) (notify_unexpected_disconnect reason))
lost-Accounts message reason t s =
    after-Accounts t (fail_open message t) (notify_unexpected_disconnect reason)
      (fail_open-Accounts message t s) (notify-Accounts reason)

-- Events of none of the three kinds.
abbrev pub IsNeutral : List Event → Type 0
IsNeutral es = (count settles_open es ≡ 0) × (count settles_closed es ≡ 0) × (count notifies es ≡ 0)

pub neutral-Accounts :
    (t : Transport) (es : List Event) → IsSound t → IsNeutral es → Accounts t (t, es)
neutral-Accounts t es s n = (s, omega (arith, n.0), omega (arith, n.1), omega (arith, n.2))

pub same-Accounts : (t : Transport) → IsSound t → Accounts t (t, [])
unfolding count
same-Accounts t s = neutral-Accounts t [] s (refl, refl, refl)
