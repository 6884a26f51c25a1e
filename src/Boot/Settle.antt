-- ===== src/Boot/Settle.antt =====
-- When the cover of web/bootscreen.js is taken away.
use bashtion_wasm.Base.{
  ℕ, zero, suc, ◌+◌, ◌-◌, ◌*◌, ◌≤◌, ◌<◌, ◌≡◌, ◌⊎◌, inl, inr, refl, arith, Bool, true, false, not,
  ◌||◌, Option, none, some, ltb, if_known,
}
use bashtion_wasm.Boot.{
  Poll, Glance, Reveal, settle_ms, ran, back, settled, lifts_from, uncovers_from, uncovers_after,
  uncovers,
}
use bashtion_wasm.Boot.Lift.{Reveals, Reason, Rested, Late, lifts_from-Reveals, lifts_Reason}

-- The handover's `clear` has run and the prompt is back.
pub record IsBack (g : Glance) : Type 0 where
  pub cleared : ran g.since ≡ true
  pub at_prompt : g.prompt ≡ true

abbrev pub Overstayed : ℕ → Glance → Type 0
Overstayed t0 g = settle_ms ≤ g.at_limit - t0

-- A glance takes the cover away, and it may.
abbrev pub TakenAway : (ℕ → Glance) → ℕ → Option ℕ → Type 0
TakenAway glances t0 none = ⊥
TakenAway glances t0 (some j) = IsBack (glances j) ⊎ Overstayed t0 (glances j)

back-IsBack : (g : Glance) → back g ≡ true → IsBack g
unfolding back
back-IsBack g h = record { cleared = ground arith; at_prompt = ground arith }

settled_why : (t0 : ℕ) (g : Glance) → settled t0 g ≡ true → IsBack g ⊎ Overstayed t0 g
settled_why t0 g h = elim (why (back g) h) [
  | inl at_once ↦ inl (back-IsBack g at_once)
  | inr late ↦ inr late
]
  where
    why :
        (b : Bool)
        → (b || not (ltb (g.at_limit - t0) settle_ms)) ≡ true
        → (b ≡ true) ⊎ Overstayed t0 g
    why true e = inl refl
    why false e = inr (ground arith)

not_settled : (t0 : ℕ) (g : Glance) → settled t0 g ≡ false → g.at_limit - t0 < settle_ms
not_settled t0 g h = why (back g) h
  where
    why :
        (b : Bool)
        → (b || not (ltb (g.at_limit - t0) settle_ms)) ≡ false
        → g.at_limit - t0 < settle_ms
    why true e = absurd (cc)
    why false e = ground arith

module _ (glances : ℕ → Glance) (t0 : ℕ)
    (paced : (j : ℕ) → t0 + 250 * j ≤ (glances j).at_limit) where
  from_TakenAway :
      (rounds j : ℕ)
      → settle_ms ≤ 250 * (j + rounds)
      → TakenAway glances t0 (uncovers_from glances t0 (suc rounds) j)
  unfolding uncovers_from
  from_TakenAway zero j h =
      if_known (TakenAway glances t0) (settled t0 (glances j)) {x = some j} {y = none}
        (settled_why t0 (glances j))
        (λ k. absurd (omega (arith, paced j, not_settled t0 (glances j) k)))
  from_TakenAway (suc rounds) j h =
      if_known (TakenAway glances t0) (settled t0 (glances j)) {x = some j}
        {y = uncovers_from glances t0 (suc rounds) (j + 1)} (settled_why t0 (glances j))
        (λ k. from_TakenAway rounds (j + 1) (omega arith))

-- A poll calls reveal(), and a glance behind it takes the cover away, each for its reason.
abbrev pub Uncovered : (ℕ → Poll) → ℕ → (ℕ → Reveal) → Option (ℕ × ℕ) → Type 0
Uncovered polls t0 reveals none = ⊥
Uncovered polls t0 reveals (some (i, j)) =
    (Rested polls t0 i ⊎ Late polls t0 i)
    × (IsBack ((reveals i).glances j) ⊎ Overstayed (reveals i).at ((reveals i).glances j))

module _ (polls : ℕ → Poll) (t0 : ℕ) (reveals : ℕ → Reveal) where
  TakenAway-Uncovered :
      (i : ℕ) (o : Option ℕ)
      → Rested polls t0 i ⊎ Late polls t0 i
      → TakenAway (reveals i).glances (reveals i).at o
      → Uncovered polls t0 reveals (elim o [ none ↦ none | some j ↦ some (i, j) ])
  TakenAway-Uncovered i none why away = away
  TakenAway-Uncovered i (some j) why away = (why, away)

  uncovers_after-Uncovered :
      ((i j : ℕ) → (reveals i).at + 250 * j ≤ ((reveals i).glances j).at_limit)
      → (o : Option ℕ) → Reveals o
      → Reason polls t0 o
      → Uncovered polls t0 reveals (uncovers_after reveals 61 o)
  unfolding uncovers_after
  uncovers_after-Uncovered paced none r why = r
  uncovers_after-Uncovered paced (some i) r why =
      TakenAway-Uncovered i _ why
        (from_TakenAway (reveals i).glances (reveals i).at (paced i) 60 0 (omega arith))

-- If the polls come 500 ms apart, at least, and the glances behind reveal() 250 ms, one of the first
-- 3,602 polls calls reveal() and one of the first 61 glances behind it takes the cover away. The poll
-- has had the prompt for more than 1,200 ms, or comes when more than 30 minutes are over; the glance
-- finds the prompt behind the handover's `clear`, or comes 15 seconds after the call, at least.
pub uncovers-Uncovered :
    (polls : ℕ → Poll) (t0 : ℕ) (reveals : ℕ → Reveal)
    → ((i : ℕ) → t0 + 500 * i ≤ (polls i).at_cap)
    → ((i j : ℕ) → (reveals i).at + 250 * j ≤ ((reveals i).glances j).at_limit)
    → Uncovered polls t0 reveals (uncovers polls t0 reveals 3602 61)
unfolding uncovers
uncovers-Uncovered polls t0 reveals paced glanced =
    uncovers_after-Uncovered polls t0 reveals glanced (lifts_from polls t0 3602 0 0)
      (lifts_from-Reveals polls t0 paced) (lifts_Reason polls t0 3602 0 0 (inl refl))
