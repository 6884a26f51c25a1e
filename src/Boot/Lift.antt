-- ===== src/Boot/Lift.antt =====
-- Which poll of web/bootscreen.js calls reveal().
use mathlib.Core.Path.{subst}
use bashtion_wasm.Base.{
  ℕ, zero, suc, ◌+◌, ◌-◌, ◌*◌, ◌≤◌, ◌<◌, ◌≡◌, ◌⊎◌, inl, inr, refl, ap, ◌∙◌, arith, Bool, true,
  false, ◌&&◌, ◌||◌, Option, none, some, ltb, ltb→lt, ltb→ge, ◌==◌, Bool-cases, if_known,
  if◌then◌else◌,
}
use bashtion_wasm.Boot.{Poll, prompt_ms, cover_ms, since_next, held, overdue, lifts_from}

-- The poll that is given calls reveal().
abbrev pub Reveals : Option ℕ → Type 0
Reveals none = ⊥
Reveals (some i) = Unit

not_overdue : (a b : Bool) → (a || b) ≡ false → b ≡ false
not_overdue true b h = absurd (cc)
not_overdue false b h = h

module _ (polls : ℕ → Poll) (t0 : ℕ) where
  from_Reveals :
      ((i : ℕ) → t0 + 500 * i ≤ (polls i).at_cap)
      → (rounds i since : ℕ) → cover_ms < 500 * (i + rounds)
      → Reveals (lifts_from polls t0 (suc rounds) i since)
  unfolding lifts_from
  from_Reveals paced zero i since h =
      if_known Reveals (held since (polls i) || overdue t0 (polls i)) {x = some i} {y = none}
        (λ k. tt)
        (λ k.
          absurd
            (omega (arith, paced i, ltb→ge cover_ms ((polls i).at_cap - t0) (not_overdue _ _ k))))
  from_Reveals paced (suc rounds) i since h =
      if_known Reveals (held since (polls i) || overdue t0 (polls i)) {x = some i}
        {y = lifts_from polls t0 (suc rounds) (i + 1) (since_next since (polls i))} (λ k. tt)
        (λ k. from_Reveals paced rounds (i + 1) (since_next since (polls i)) (omega arith))

-- If the polls come 500 ms apart, at least, one of the first 3,602 calls reveal().
pub lifts_from-Reveals :
    (polls : ℕ → Poll) (t0 : ℕ)
    → ((i : ℕ) → t0 + 500 * i ≤ (polls i).at_cap)
    → Reveals (lifts_from polls t0 3602 0 0)
lifts_from-Reveals polls t0 paced = from_Reveals polls t0 paced 3601 0 0 (omega arith)

module _ (polls : ℕ → Poll) (t0 : ℕ) where
  -- The prompt is there on all polls from `k` to below `i`.
  abbrev pub Prompted : ℕ → ℕ → Type 0
  Prompted k i = (j : ℕ) → k ≤ j → j < i → (polls j).prompt ≡ true

  -- What `promptSince` stands for, in front of the poll `i`.
  abbrev pub From : ℕ → ℕ → Type 0
  From i since =
      (since ≡ 0) ⊎ ((k : ℕ) × (k < i) × (since ≡ (polls k).at_prompt_since) × Prompted k i)

  -- The prompt has been there for more than 1,200 ms on the poll `i`, and on all polls of that time.
  abbrev pub Rested : ℕ → Type 0
  Rested i =
      (k : ℕ) × (k ≤ i)
      × Prompted k (suc i)
      × (prompt_ms < (polls i).at_held - (polls k).at_prompt_since)

  abbrev pub Late : ℕ → Type 0
  Late i = cover_ms < (polls i).at_cap - t0

  just_this : (i : ℕ) → (polls i).prompt ≡ true → Prompted i (suc i)
  just_this i h j le lt = ap (λ (n : ℕ). (polls n).prompt) {x = j} {y = i} (omega arith) ∙ h

  one_more : (k i : ℕ) → Prompted k i → (polls i).prompt ≡ true → Prompted k (suc i)
  one_more k i h e j le lt = elim (Bool-cases (ltb j i)) [
    | inl before ↦ h j le (ltb→lt j i before)
    | inr at ↦ ap (λ (n : ℕ). (polls n).prompt) {x = j} {y = i} (omega (arith, ltb→ge j i at)) ∙ e
  ]

  -- With a prompt, the time is that of a poll from which on it has been there.
  abbrev Begun : ℕ → ℕ → Type 0
  Begun i since = (k : ℕ) × (k < suc i) × (since ≡ (polls k).at_prompt_since) × Prompted k (suc i)

  restarted :
      (i since : ℕ)
      → From i since
      → (polls i).prompt ≡ true
      → Begun i (if since == 0 then (polls i).at_prompt_since else since)
  restarted i since f e =
      if_known (Begun i) (since == 0) {x = (polls i).at_prompt_since} {y = since}
        (λ h. (i, omega arith, refl, just_this i e)) (λ h. continued f h)
    where
      continued : From i since → (since == 0) ≡ false → Begun i since
      continued (inl zero_now) h = absurd (ground arith)
      continued (inr (k, lt, same, all)) h = (k, omega arith, same, one_more k i all e)

  next_of : (i since : ℕ) → Begun i since → From (suc i) since
  next_of i since b = inr b

  next_From : (i since : ℕ) → From i since → From (suc i) (since_next since (polls i))
  next_From i since f =
      if_known (From (suc i)) (polls i).prompt
        {x = if since == 0 then (polls i).at_prompt_since else since} {y = 0}
        (λ e. next_of i _ (restarted i since f e)) (λ e. inl refl)

  both_of : (a b : Bool) → a && b ≡ true → (a ≡ true) × (b ≡ true)
  both_of true b h = (refl, h)
  both_of false b h = absurd (cc)

  either_of : (a b : Bool) → a || b ≡ true → (a ≡ true) ⊎ (b ≡ true)
  either_of true b h = inl refl
  either_of false b h = inr h

  held_Rested : (i since : ℕ) → From i since → held since (polls i) ≡ true → Rested i
  held_Rested i since f h =
      let (e, long) = both_of (polls i).prompt _ h in
      let begun = if since == 0 then (polls i).at_prompt_since else since in
      let (k, lt, same, all) = restarted i since f e in
      let chosen : since_next since (polls i) ≡ begun =
        ap (λ (b : Bool). if b then begun else 0) e in
      (
        k,
        omega arith,
        all,
        subst (λ (n : ℕ). prompt_ms < (polls i).at_held - n) (chosen ∙ same)
            (ltb→lt prompt_ms _ long),
      )

  abbrev pub Reason : Option ℕ → Type 0
  Reason none = Unit
  Reason (some i) = Rested i ⊎ Late i

  reason :
      (i since : ℕ)
      → From i since
      → (held since (polls i) || overdue t0 (polls i)) ≡ true
      → Rested i ⊎ Late i
  reason i since f h = elim (either_of (held since (polls i)) (overdue t0 (polls i)) h) [
    | inl held_now ↦ inl (held_Rested i since f held_now)
    | inr late ↦ inr (ltb→lt cover_ms ((polls i).at_cap - t0) late)
  ]

  pub lifts_Reason :
      (rounds i since : ℕ) → From i since → Reason (lifts_from polls t0 rounds i since)
  unfolding lifts_from
  lifts_Reason zero i since f = tt
  lifts_Reason (suc rounds) i since f =
      let since' = since_next since (polls i) in
      if_known Reason (held since (polls i) || overdue t0 (polls i)) {x = some i}
        {y = lifts_from polls t0 rounds (i + 1) since'} (reason i since f)
        (λ k.
          subst (λ (n : ℕ). Reason (lifts_from polls t0 rounds n since')) {x = suc i} {y = i + 1}
            (omega arith) (lifts_Reason rounds (suc i) since' (next_From i since f)))

  lifted_on : (o : Option ℕ) (i : ℕ) → o ≡ some i → Reason o → Rested i ⊎ Late i
  lifted_on none i e h = absurd (cc)
  lifted_on (some j) i e h =
      subst (λ (n : ℕ). Rested n ⊎ Late n)
        (ap (λ (o : Option ℕ). elim o [ none ↦ j | some n ↦ n ]) e) h

-- Where a poll calls reveal(), the prompt has been there on all polls of more than the last 1,200 ms, or
-- more than 30 minutes are over.
pub lifts_from-Rested :
    (polls : ℕ → Poll) (t0 rounds i : ℕ)
    → lifts_from polls t0 rounds 0 0 ≡ some i
    → Rested polls t0 i ⊎ Late polls t0 i
lifts_from-Rested polls t0 rounds i e =
    lifted_on polls t0 (lifts_from polls t0 rounds 0 0) i e
      (lifts_Reason polls t0 rounds 0 0 (inl refl))
