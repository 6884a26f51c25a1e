-- ===== src/Transfer/Wait.antt =====
-- web/serialfs.js: waitFor and its time limits. A tick is what one round of the loop observes: what the
-- caller looks for, the length of the record, and the three readings of the clock, in their order.
pub mod Limits
pub mod Silence
use bashtion_wasm.Base.{
  ℕ, zero, suc, ◌+◌, ◌-◌, ◌*◌, Bool, true, false, Option, none, some, ltb, leb, not, ◌==◌,
  if◌then◌else◌,
}

abbrev pub idle_ms : ℕ
idle_ms = 45000

abbrev pub work_ms : ℕ
work_ms = 300000

abbrev pub hard_ms : ℕ
hard_ms = 15 * 60 * 1000

abbrev pub hard_work_ms : ℕ
hard_work_ms = 45 * 60 * 1000

-- `window.__bwTimeouts`, by the names that the code asks for here.
pub record Timeouts : Type 0 where
  pub idle : Option ℕ
  pub work : Option ℕ
  pub hard : Option ℕ
  pub hard_work : Option ℕ

-- `ms(name, dflt)`.
abbrev pub ms : Option ℕ → ℕ → ℕ
ms none dflt = dflt
ms (some t) dflt = t

-- `given || other`: an argument that is left out, or zero, is replaced.
abbrev pub or_else : Option ℕ → ℕ → ℕ
or_else none other = other
or_else (some zero) other = other
or_else (some (suc t)) other = suc t

abbrev pub idle_limit : Timeouts → Option ℕ → ℕ
idle_limit o idle = or_else idle (ms o.idle idle_ms)

abbrev pub hard_limit : Timeouts → ℕ → Option ℕ → ℕ
hard_limit o idle hard =
    or_else hard
      (if leb (ms o.work work_ms) idle then ms o.hard_work hard_work_ms else ms o.hard hard_ms)

pub record Tick (A : Type 0) : Type 0 where
  pub found : Option A
  pub length : ℕ
  pub at_growth : ℕ
  pub at_idle : ℕ
  pub at_hard : ℕ

-- What a round ends with: what was looked for, nothing, or the next round.
pub data Turn (A : Type 0) : Type 0 where
  found_it : A → Turn A
  gave_up : Turn A
  waits : ℕ → ℕ → Turn A

-- The limits, behind `seen` and `moved`.
unfoldable pub check_limits : {A : Type 0} → ℕ → ℕ → ℕ → ℕ → ℕ → Tick A → Turn A
check_limits idle hard started seen moved t =
    if ltb idle (t.at_idle - moved)
    then gave_up
    else if ltb hard (t.at_hard - started)
    then gave_up
    else waits seen moved

-- Any change of the record resets the clock.
unfoldable pub look_again : {A : Type 0} → ℕ → ℕ → ℕ → ℕ → ℕ → Tick A → Turn A
look_again idle hard started seen moved t =
    if not (t.length == seen)
    then check_limits idle hard started t.length t.at_growth t
    else check_limits idle hard started seen moved t

abbrev pub unless_found : {A : Type 0} → Option A → Turn A → Turn A
unless_found none t = t
unless_found (some a) t = found_it a

-- `setTimeout(tick, 200)`.
abbrev pub go_on : {A : Type 0} → Turn A → (ℕ → ℕ → Turn A) → Turn A
go_on (found_it a) next = found_it a
go_on gave_up next = gave_up
go_on (waits seen moved) next = next seen moved

-- One round of `tick`.
unfoldable pub turn : {A : Type 0} → ℕ → ℕ → ℕ → ℕ → ℕ → Tick A → Turn A
turn idle hard started seen moved t =
    unless_found t.found (look_again idle hard started seen moved t)

-- The rounds from the tick `i` on; `waits` is what is left where `rounds` were not enough.
unfoldable pub wait_from : {A : Type 0} → (ℕ → Tick A) → ℕ → ℕ → ℕ → ℕ → ℕ → ℕ → ℕ → Turn A
wait_from ticks idle hard started zero i seen moved = waits seen moved
wait_from ticks idle hard started (suc rounds) i seen moved =
    go_on (turn idle hard started seen moved (ticks i))
      (wait_from ticks idle hard started rounds (i + 1))

-- waitFor, called at the time `started` with a record of the length `seen`.
abbrev pub wait_for :
    {A : Type 0} → Timeouts → Option ℕ → Option ℕ → ℕ → ℕ → ℕ → (ℕ → Tick A) → Turn A
wait_for o idle hard started seen rounds ticks =
    let limit = idle_limit o idle in
    wait_from ticks limit (hard_limit o limit hard) started rounds 0 seen started
