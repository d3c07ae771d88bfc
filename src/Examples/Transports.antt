-- ===== src/Examples/Transports.antt =====
-- The transport of the browser at a connection that times out, and at one that is disposed of.
use smart_c_playground.Prelude.{flag, ℕ, ◌≡◌, true, false, not, some, List, [], ◌∷◌}
use smart_c_playground.Text.{codes}
use smart_c_playground.Transport.{
  Action, waits, fires, opens, receives, subscribes, sends, closes, dispose, run,
}
use smart_c_playground.Transport.Accounts.{count, settles_open, settles_closed, notifies}
use smart_c_playground.Transport.Once.{from_construction, from_construction_once}
use smart_c_playground.Transport.Silent.{is_loud, disposed-is_loud}

-- The connection does not open in time; its socket is closed later.
abbrev slow : List (ℕ × Action)
slow = (0, waits (some 10000)) ∷ (0, fires) ∷ (3, closes) ∷ []

from_construction_once_example :
    (count settles_open (from_construction 0 slow).1
      ≡ flag (from_construction 0 slow).0.open_settled)
    × (count settles_closed (from_construction 0 slow).1
        ≡ flag (not (from_construction 0 slow).0.resolve_closed))
    × (count notifies (from_construction 0 slow).1
        ≡ flag (from_construction 0 slow).0.unavailable_notified)
from_construction_once_example = from_construction_once 0 slow

-- A subscriber comes, and the socket opens; both come again after the disposal, with a message.
abbrev before : List (ℕ × Action)
before = (0, waits (some 10000)) ∷ (0, subscribes 1) ∷ (1, opens) ∷ []

abbrev later : List (ℕ × Action)
later =
    (2, subscribes 2)
    ∷ (2, receives (some (codes "x")) (λ subscriber. false))
    ∷ (2, sends (codes "y"))
    ∷ (3, closes)
    ∷ []

disposed-is_loud_example :
    ((run (dispose 1 (from_construction 0 before).0).0 later).0.disposed ≡ true)
    × (count is_loud (run (dispose 1 (from_construction 0 before).0).0 later).1 ≡ 0)
disposed-is_loud_example = disposed-is_loud 0 before 1 later
