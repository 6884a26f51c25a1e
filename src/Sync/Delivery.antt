-- ===== src/Sync/Delivery.antt =====
-- A geometry is told in the end, and told once.
use bashtion_wasm.Base.{
  ℕ, zero, suc, ◌≡◌, refl, ap, ◌∙◌, true, false, [], ◌∷◌, ◌++◌, some, replicate, arith, Bool-cases,
  inl, inr, if◌then◌else◌,
}
use bashtion_wasm.Screen.Display.{Geometry}
use bashtion_wasm.Sync.{
  Sync, unusable, same, tell, attempt, request, fire, requested, fired, on_event, run,
}

-- What the guest is to believe in the end, and what was sent for it.
pub record Delivered (s : Sync) (g : Geometry) (d : Sync) : Type 0 where
  pub quiet : d.timer ≡ false
  pub known : same d.told g ≡ true
  pub once : d.sent ≡ (if same s.told g then s.sent else g ∷ s.sent)

same_self : (g : Geometry) → same (some g) g ≡ true
same_self g = ground arith

-- The state between the first attempt and the last: nothing sent, and the timer set if there is
-- something to send.
record Waiting (s : Sync) (g : Geometry) (d : Sync) : Type 0 where
  pends : d.timer ≡ (if same s.told g then false else true)
  kept : d.told ≡ s.told
  unsent : d.sent ≡ s.sent

requested-Waiting :
    (s : Sync) (g : Geometry)
    → unusable (some g) ≡ false
    → Waiting s g (on_event s (requested (some g) false))
unfolding on_event request attempt tell
requested-Waiting s g u = elim (Bool-cases (same s.told g)) [
  | inl known ↦ rw (u, known) (record { pends = rw known; kept = refl; unsent = refl })
  | inr new ↦ rw (u, new) (record { pends = rw new; kept = refl; unsent = refl })
]

fired-Waiting :
    (s : Sync) (g : Geometry) (d : Sync)
    → unusable (some g) ≡ false
    → Waiting s g d
    → Waiting s g (on_event d (fired (some g) false))
unfolding on_event fire attempt tell
fired-Waiting s g d u w = elim (Bool-cases (same s.told g)) [
  | inl known ↦
      rw (w.pends ∙ ap (λ b. if b then false else true) known)
        (record { pends = rw known; kept = w.kept; unsent = w.unsent })
  | inr new ↦
      rw (w.pends ∙ ap (λ b. if b then false else true) new, u, ap (λ t. same t g) w.kept ∙ new)
        (record { pends = rw new; kept = w.kept; unsent = w.unsent })
]

fired-Delivered :
    (s : Sync) (g : Geometry) (d : Sync)
    → unusable (some g) ≡ false
    → Waiting s g d
    → Delivered s g (on_event d (fired (some g) true))
unfolding on_event fire attempt tell
fired-Delivered s g d u w = elim (Bool-cases (same s.told g)) [
  | inl known ↦
      rw (w.pends ∙ ap (λ b. if b then false else true) known) (record {
        quiet = refl;
        known = ap (λ t. same t g) w.kept ∙ known;
        once = rw known w.unsent;
      })
  | inr new ↦
      rw (w.pends ∙ ap (λ b. if b then false else true) new, u, ap (λ t. same t g) w.kept ∙ new)
        (record { quiet = refl; known = same_self g; once = rw new (ap (g ∷◌) w.unsent) })
]

waits-Delivered :
    (k : ℕ) (s : Sync) (g : Geometry) (d : Sync)
    → unusable (some g) ≡ false
    → Waiting s g d
    → Delivered s g (run d (replicate k (fired (some g) false) ++ (fired (some g) true ∷ [])))
unfolding run
waits-Delivered zero s g d u w = fired-Delivered s g d u w
waits-Delivered (suc k) s g d u w = waits-Delivered k s g _ u (fired-Waiting s g d u w)

-- A geometry that is asked for while the console is busy is told as soon as a retry finds the console
-- idle, however many retries found it busy before: then the guest was told that geometry last, no
-- timer is left, and it was sent once, or not at all where it was what the guest had been told.
pub run-Delivered :
    (k : ℕ) (s : Sync) (g : Geometry)
    → unusable (some g) ≡ false
    → Delivered s g (
        run s (
          requested (some g) false
          ∷ (replicate k (fired (some g) false) ++ (fired (some g) true ∷ []))))
unfolding run
run-Delivered k s g u = waits-Delivered k s g _ u (requested-Waiting s g u)
