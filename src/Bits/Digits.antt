-- ===== src/Bits/Digits.antt =====
-- The binary digits of native numbers, which the bitwise operations go through: rounds beyond those that
-- a number needs change nothing.
use Prim.Native.Nat.{digits}
use bashtion_wasm.Base.{ℕ, zero, suc, ◌+◌, ◌-◌, ◌*◌, ◌/◌, ◌%◌, ◌≤◌, ◌≡◌, refl, ap, ◌∙◌, arith}

module _ (rest : ℕ → ℕ) (op : ℕ → ℕ → ℕ) where
  abbrev through : ℕ → ℕ → ℕ → ℕ
  through = digits rest op

  one_more : (rounds a b : ℕ) → a ≤ rounds → through (suc rounds) a b ≡ through rounds a b
  one_more rounds zero b h = at_zero rounds
    where
      at_zero : (k : ℕ) → through (suc k) zero b ≡ through k zero b
      at_zero zero = refl
      at_zero (suc k) = refl
  one_more zero (suc a) b h = absurd (omega arith)
  one_more (suc rounds) (suc a) b h =
      ap (λ (high : ℕ). high * 2 + op (suc a % 2) (b % 2))
        (one_more rounds (suc a / 2) (b / 2) (omega arith))

  many_more :
      (extra rounds a b : ℕ) → a ≤ rounds → through (extra + rounds) a b ≡ through rounds a b
  many_more zero rounds a b h =
      ap (λ (k : ℕ). through k a b) {x = zero + rounds} {y = rounds} (omega arith)
  many_more (suc extra) rounds a b h =
      ap (λ (k : ℕ). through k a b) {x = suc extra + rounds} {y = suc (extra + rounds)}
        (omega arith)
      ∙ one_more (extra + rounds) a b (omega arith)
      ∙ many_more extra rounds a b h

  -- A positive number, by its lowest digit and its half.
  pub lowest_first :
      (a b : ℕ)
      → through (suc a) (suc a) b
        ≡ through (suc a / 2) (suc a / 2) (b / 2) * 2 + op (suc a % 2) (b % 2)
  lowest_first a b =
      let half = suc a / 2 in
      ap (λ (k : ℕ). through k half (b / 2) * 2 + op (suc a % 2) (b % 2)) {x = a}
        {y = a - half + half} (omega arith)
      ∙ ap (λ (high : ℕ). high * 2 + op (suc a % 2) (b % 2))
          (many_more (a - half) half half (b / 2) (omega arith))
