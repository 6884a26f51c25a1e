-- ===== src/Transfer/Wait/Silence.antt =====
-- Why waitFor gives up.
use mathlib.Core.Path.{subst}
use bashtion_wasm.Base.{
  ℕ, zero, suc, ◌+◌, ◌-◌, ◌≤◌, ◌<◌, ◌≡◌, ◌⊎◌, inl, inr, refl, ap, ◌∙◌, arith, false, Option, none,
  some, ltb, ltb→lt, ltb→ge, not, ◌==◌, Bool-cases, if_known,
}
use bashtion_wasm.Transfer.Wait.{
  Timeouts, idle_limit, hard_limit, Tick, Turn, found_it, gave_up, waits, check_limits, look_again,
  unless_found, go_on, turn, wait_from, wait_for,
}

same_length : (a b : ℕ) → not (a == b) ≡ false → a ≡ b
same_length a b h = ground arith

module _ {A : Type 0} (ticks : ℕ → Tick A) where
  -- The record has the length `seen` on all ticks from `k` to below `i`.
  abbrev pub Still : ℕ → ℕ → ℕ → Type 0
  Still k i seen = (j : ℕ) → k ≤ j → j < i → (ticks j).length ≡ seen

  -- The record last grew at the time `moved`, or has not since the wait began.
  abbrev pub Since : ℕ → ℕ → ℕ → ℕ → Type 0
  Since started i seen moved =
      ((moved ≡ started) × Still 0 i seen)
      ⊎ ((k : ℕ) × (k < i) × (moved ≡ (ticks k).at_growth) × Still k i seen)

  -- On the tick `i` the record has been still for more than the idle limit.
  abbrev pub Silent : ℕ → ℕ → ℕ → Type 0
  Silent idle started i =
      (seen : ℕ) × (moved : ℕ) × Since started (suc i) seen moved
      × (idle < (ticks i).at_idle - moved)

  -- On the tick `i` the hard limit is over.
  abbrev pub Overdue : ℕ → ℕ → ℕ → Type 0
  Overdue hard started i = hard < (ticks i).at_hard - started

  module _ (idle hard started : ℕ) where
    abbrev Explained : ℕ → Turn A → Type 0
    Explained i (found_it a) = Unit
    Explained i gave_up = Silent idle started i ⊎ Overdue hard started i
    Explained i (waits seen moved) = Since started (suc i) seen moved

    check-Explained :
        (i seen moved : ℕ)
        → Since started (suc i) seen moved
        → Explained i (check_limits idle hard started seen moved (ticks i))
    unfolding check_limits
    check-Explained i seen moved s =
        if_known (Explained i) (ltb idle ((ticks i).at_idle - moved)) {x = gave_up}
          (λ h. inl (seen, moved, s, ltb→lt idle ((ticks i).at_idle - moved) h))
          (λ h.
            if_known (Explained i) (ltb hard ((ticks i).at_hard - started)) {x = gave_up}
              {y = waits seen moved} (λ h. inr (ltb→lt hard ((ticks i).at_hard - started) h))
              (λ h. s))

    -- The tick is the last one with this length.
    grown : (i : ℕ) → Since started (suc i) (ticks i).length (ticks i).at_growth
    grown i = inr (i, omega arith, refl, λ j h k. ap (λ (n : ℕ). (ticks n).length) (omega arith))

    one_longer : (k i seen : ℕ) → Still k i seen → (ticks i).length ≡ seen → Still k (suc i) seen
    one_longer k i seen h e j le lt = elim (Bool-cases (ltb j i)) [
      | inl before ↦ h j le (ltb→lt j i before)
      | inr at ↦ ap (λ (n : ℕ). (ticks n).length) {x = j} {y = i} (omega (arith, ltb→ge j i at)) ∙ e
    ]

    stayed :
        (i seen moved : ℕ)
        → Since started i seen moved
        → (ticks i).length ≡ seen
        → Since started (suc i) seen moved
    stayed i seen moved (inl (e, h)) same = inl (e, one_longer 0 i seen h same)
    stayed i seen moved (inr (k, lt, e, h)) same =
        inr (k, omega arith, e, one_longer k i seen h same)

    look-Explained :
        (i seen moved : ℕ)
        → Since started i seen moved
        → Explained i (look_again idle hard started seen moved (ticks i))
    unfolding look_again
    look-Explained i seen moved s =
        if_known (Explained i) (not ((ticks i).length == seen))
          (λ h. check-Explained i (ticks i).length (ticks i).at_growth (grown i))
          (λ h.
            check-Explained i seen moved
              (stayed i seen moved s (same_length (ticks i).length seen h)))

    turn-Explained :
        (i seen moved : ℕ)
        → Since started i seen moved
        → Explained i (turn idle hard started seen moved (ticks i))
    unfolding turn
    turn-Explained i seen moved s =
        found_or (ticks i).found (look_again idle hard started seen moved (ticks i))
          (look-Explained i seen moved s)
      where
        found_or : (o : Option A) (u : Turn A) → Explained i u → Explained i (unless_found o u)
        found_or none u h = h
        found_or (some a) u h = tt

    -- Whenever the loop has given up, there is a tick that explains it.
    abbrev Reasoned : Turn A → Type 0
    Reasoned (found_it a) = Unit
    Reasoned gave_up = (i : ℕ) × (Silent idle started i ⊎ Overdue hard started i)
    Reasoned (waits seen moved) = Unit

    then_Reasoned :
        (i : ℕ) (u : Turn A) (next : ℕ → ℕ → Turn A)
        → Explained i u
        → ((seen moved : ℕ) → Since started (suc i) seen moved → Reasoned (next seen moved))
        → Reasoned (go_on u next)
    then_Reasoned i (found_it a) next h k = tt
    then_Reasoned i gave_up next h k = (i, h)
    then_Reasoned i (waits seen moved) next h k = k seen moved h

    from_Reasoned :
        (rounds i seen moved : ℕ)
        → Since started i seen moved
        → Reasoned (wait_from ticks idle hard started rounds i seen moved)
    unfolding wait_from
    from_Reasoned zero i seen moved s = tt
    from_Reasoned (suc rounds) i seen moved s =
        then_Reasoned i (turn idle hard started seen moved (ticks i))
          (wait_from ticks idle hard started rounds (i + 1)) (turn-Explained i seen moved s)
          (λ seen moved t.
            subst (λ (n : ℕ). Reasoned (wait_from ticks idle hard started rounds n seen moved))
              {x = suc i} {y = i + 1} (omega arith) (from_Reasoned rounds (suc i) seen moved t))

    given_up :
        (u : Turn A)
        → u ≡ gave_up
        → Reasoned u
        → (i : ℕ) × (Silent idle started i ⊎ Overdue hard started i)
    given_up (found_it a) e h = absurd (cc)
    given_up gave_up e h = h
    given_up (waits seen moved) e h = absurd (cc)

-- Where waitFor gives up, there is a tick on which the record has been still for more than the idle limit,
-- or more than the hard limit is over since the wait began.
pub wait_for-gave_up :
    {A : Type 0} (o : Timeouts) (idle hard : Option ℕ) (started seen rounds : ℕ)
    (ticks : ℕ → Tick A)
    → wait_for o idle hard started seen rounds ticks ≡ gave_up
    → (i : ℕ) × (Silent ticks (idle_limit o idle) started i
        ⊎ Overdue ticks (hard_limit o (idle_limit o idle) hard) started i)
wait_for-gave_up o idle hard started seen rounds ticks e =
    given_up ticks (idle_limit o idle) (hard_limit o (idle_limit o idle) hard) started _ e (
      from_Reasoned ticks (idle_limit o idle) (hard_limit o (idle_limit o idle) hard) started rounds
        0 seen started (inl (refl, λ j le lt. absurd (omega arith))))
