-- ===== src/Transfer/Wait/Limits.antt =====
-- When waitFor ends.
use mathlib.Core.Path.{subst}
use bashtion_wasm.Base.{
  ℕ, zero, suc, ◌+◌, ◌-◌, ◌*◌, ◌/◌, ◌≤◌, ◌<◌, arith, Option, none, some, ltb, ltb→ge, not, ◌==◌,
  if_keep, if_known,
}
use bashtion_wasm.Transfer.Wait.{
  Timeouts, idle_limit, hard_limit, Tick, Turn, found_it, gave_up, waits, check_limits, look_again,
  unless_found, go_on, turn, wait_from, wait_for,
}

-- The loop is over.
abbrev pub Settles : {A : Type 0} → Turn A → Type 0
Settles (waits seen moved) = ⊥
Settles (found_it a) = Unit
Settles gave_up = Unit

module _ {A : Type 0} (idle hard started : ℕ) where
  -- A round that goes on is within both limits.
  Within : Tick A → Turn A → Type 0
  Within t (waits seen moved) = t.at_hard - started ≤ hard
  Within t (found_it a) = Unit
  Within t gave_up = Unit

  check-Within :
      (seen moved : ℕ) (t : Tick A) → Within t (check_limits idle hard started seen moved t)
  unfolding check_limits Within
  check-Within seen moved t = if_keep (Within t) (ltb idle (t.at_idle - moved)) {x = gave_up} tt (
      if_known (Within t) (ltb hard (t.at_hard - started)) {x = gave_up} {y = waits seen moved}
        (λ h. tt) (λ h. ltb→ge hard (t.at_hard - started) h))

  look-Within : (seen moved : ℕ) (t : Tick A) → Within t (look_again idle hard started seen moved t)
  unfolding look_again Within
  look-Within seen moved t =
      if_keep (Within t) (not (t.length == seen)) (check-Within t.length t.at_growth t)
        (check-Within seen moved t)

  turn-Within : (seen moved : ℕ) (t : Tick A) → Within t (turn idle hard started seen moved t)
  unfolding turn Within
  turn-Within seen moved t =
      found_or t.found (look_again idle hard started seen moved t) (look-Within seen moved t)
    where
      found_or : (o : Option A) (u : Turn A) → Within t u → Within t (unless_found o u)
      found_or none u h = h
      found_or (some a) u h = tt

  -- A round goes on, or the loop is over.
  next_Settles :
      (t : Tick A) (u : Turn A) (next : ℕ → ℕ → Turn A)
      → Within t u
      → ((seen moved : ℕ) → t.at_hard - started ≤ hard → Settles (next seen moved))
      → Settles (go_on u next)
  unfolding Within
  next_Settles t (found_it a) next h k = tt
  next_Settles t gave_up next h k = tt
  next_Settles t (waits seen moved) next h k = k seen moved h

  -- Each round comes 200 ms behind the last one, at least.
  from_Settles :
      (ticks : ℕ → Tick A)
      → ((i : ℕ) → started + 200 * i ≤ (ticks i).at_hard)
      → (rounds i seen moved : ℕ) → hard < 200 * (i + rounds)
      → Settles (wait_from ticks idle hard started (suc rounds) i seen moved)
  unfolding wait_from
  from_Settles ticks paced zero i seen moved h =
      next_Settles (ticks i) (turn idle hard started seen moved (ticks i)) _
        (turn-Within seen moved (ticks i)) (λ seen moved k. absurd (omega (arith, paced i)))
  from_Settles ticks paced (suc rounds) i seen moved h =
      next_Settles (ticks i) (turn idle hard started seen moved (ticks i)) _
        (turn-Within seen moved (ticks i))
        (λ seen moved k. from_Settles ticks paced rounds (i + 1) seen moved (omega arith))

-- A wait whose rounds come 200 ms apart, at least, ends within one round for each 200 ms of its hard limit
-- and two more, whatever the guest prints.
pub wait_for-Settles :
    {A : Type 0} (o : Timeouts) (idle hard : Option ℕ) (started seen : ℕ) (ticks : ℕ → Tick A)
    → ((i : ℕ) → started + 200 * i ≤ (ticks i).at_hard)
    → Settles
        (wait_for o idle hard started seen (hard_limit o (idle_limit o idle) hard / 200 + 2) ticks)
wait_for-Settles o idle hard started seen ticks paced =
    let limit = hard_limit o (idle_limit o idle) hard in
    subst (λ (n : ℕ). Settles (wait_for o idle hard started seen n ticks))
      {x = suc (limit / 200 + 1)} {y = limit / 200 + 2} (omega arith)
      (from_Settles (idle_limit o idle) limit started ticks paced (limit / 200 + 1) 0 seen started
        (omega arith))
