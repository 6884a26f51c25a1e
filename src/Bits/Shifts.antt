-- ===== src/Bits/Shifts.antt =====
-- Exclusive or of numbers that are made of two fields, and of shifted ones.
use native.Mathlib.Nat.{pow-suc}
use mathlib.Core.Path.{ap₂}
use bashtion_wasm.Base.{ℕ, zero, suc, ◌+◌, ◌*◌, ◌/◌, ◌^◌, ◌<◌, ◌≡◌, sym, ap, ◌∙◌, arith}
use bashtion_wasm.Bits.{bit_xor, bit_xor_step}

pub mul_pow_suc : (q k : ℕ) → q * 2 ^ suc k ≡ 2 * (q * 2 ^ k)
mul_pow_suc q k = omega (arith, ap (λ (t : ℕ). q * t) (pow-suc 2 k))

pub none_below : (a : ℕ) → a < 2 ^ 0 → a ≡ 0
none_below a h = omega arith

-- Exclusive or stays within the bits of its arguments.
pub bit_xor_lt : (k a b : ℕ) → a < 2 ^ k → b < 2 ^ k → bit_xor a b < 2 ^ k
bit_xor_lt zero a b p q = rw (none_below a p, none_below b q) (omega arith)
bit_xor_lt (suc k) a b p q = omega (
  arith,
  bit_xor_step a b,
  pow-suc 2 k,
  bit_xor_lt k (a / 2) (b / 2) (omega (arith, pow-suc 2 k)) (omega (arith, pow-suc 2 k)),
)

one_fields : (q p : ℕ) → bit_xor (q * 2 ^ 0 + 0) (p * 2 ^ 0 + 0) ≡ bit_xor q p * 2 ^ 0 + bit_xor 0 0
one_fields q p =
    let hi : (n : ℕ) → n * 2 ^ 0 + 0 ≡ n = λ n. omega arith in
    ap₂ bit_xor (hi q) (hi p) ∙ sym (hi (bit_xor q p))

-- Of two numbers with a high and a low field, the fields go by themselves.
pub bit_xor_fields :
    (k q r p s : ℕ)
    → r < 2 ^ k
    → s < 2 ^ k
    → bit_xor (q * 2 ^ k + r) (p * 2 ^ k + s) ≡ bit_xor q p * 2 ^ k + bit_xor r s
bit_xor_fields zero q r p s hr hs = rw (none_below r hr, none_below s hs) (one_fields q p)
bit_xor_fields (suc k) q r p s hr hs =
    let halves : bit_xor ((q * 2 ^ suc k + r) / 2) ((p * 2 ^ suc k + s) / 2)
        ≡ bit_xor q p * 2 ^ k + bit_xor (r / 2) (s / 2) =
      ap₂ bit_xor (omega (arith, mul_pow_suc q k)) (omega (arith, mul_pow_suc p k))
      ∙ bit_xor_fields k q (r / 2) p (s / 2) (omega (arith, pow-suc 2 k))
          (omega (arith, pow-suc 2 k)) in
    omega (
      arith,
      bit_xor_step (q * 2 ^ suc k + r) (p * 2 ^ suc k + s),
      halves,
      bit_xor_step r s,
      mul_pow_suc q k,
      mul_pow_suc p k,
      mul_pow_suc (bit_xor q p) k,
    )

pub bit_xor_double : (a b : ℕ) → bit_xor (a * 2) (b * 2) ≡ bit_xor a b * 2
bit_xor_double a b =
    let even : (n : ℕ) → n * 2 / 2 ≡ n = λ n. omega arith in
    omega (arith, bit_xor_step (a * 2) (b * 2), ap₂ bit_xor (even a) (even b))
