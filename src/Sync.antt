-- ===== src/Sync.antt =====
-- web/termfit.js, makeSync: telling the guest the terminal's geometry, and trying again while the
-- console is busy. The terminal, canSend and the timers are the page's: an event says what they give.
pub mod Delivery
use bashtion_wasm.Base.{
  ℕ, Bool, true, false, not, ◌&&◌, ◌||◌, List, [], ◌∷◌, ◌++◌, Option, none, some, ◌==◌,
  if◌then◌else◌,
}
use bashtion_wasm.Screen.Display.{Geometry}

-- `told`, and whether `timer` is set; `sent` is every geometry that was sent, the latest first.
pub record Sync : Type 0 where
  pub told : Option Geometry
  pub timer : Bool
  pub sent : List Geometry

abbrev pub start : Sync
start = record { told = none; timer = false; sent = [] }

-- `!want || !want.cols || !want.rows`.
abbrev pub unusable : Option Geometry → Bool
unusable none = true
unusable (some g) = g.cols == 0 || g.rows == 0

abbrev pub same : Option Geometry → Geometry → Bool
same none g = false
same (some t) g = t.cols == g.cols && t.rows == g.rows

-- `attempt()` for a geometry that can be told.
unfoldable pub tell : Geometry → Bool → Sync → Sync
tell g can_send s =
    if same s.told g
    then record s { timer = false }
    else if not can_send
    then record s { timer = true }
    else record { told = some g; timer = false; sent = g ∷ s.sent }

unfoldable pub attempt : Option Geometry → Bool → Sync → Sync
attempt none can_send s = record s { timer = false }
attempt (some g) can_send s =
    if unusable (some g) then record s { timer = false } else tell g can_send s

-- `request()`, which clears a timer that is set and attempts.
unfoldable pub request : Option Geometry → Bool → Sync → Sync
request want can_send s = attempt want can_send (record s { timer = false })

-- The timer's callback, where it is set.
unfoldable pub fire : Option Geometry → Bool → Sync → Sync
fire want can_send s = if s.timer then attempt want can_send s else s

-- `seed(g)`.
unfoldable pub seed : Option Geometry → Sync → Sync
seed g s = record s { told = g }

-- What happens to it: each attempt sees the geometry of the terminal and whether it can send.
pub data Event : Type 0 where
  requested fired : Option Geometry → Bool → Event
  seeded : Option Geometry → Event

unfoldable pub on_event : Sync → Event → Sync
on_event s (requested want can_send) = request want can_send s
on_event s (fired want can_send) = fire want can_send s
on_event s (seeded g) = seed g s

unfoldable pub run : Sync → List Event → Sync
run s [] = s
run s (e ∷ es) = run (on_event s e) es
