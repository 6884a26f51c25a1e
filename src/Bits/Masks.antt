-- ===== src/Bits/Masks.antt =====
-- The masks of the code: one bit, and the lowest byte.
use Prim.Native.Nat.{digits, bit_and-bitwise, min}
use native.Mathlib.Nat.{pow-suc}
use mathlib.Core.Path.{ap₂}
use bashtion_wasm.Base.{
  ℕ, zero, suc, ◌+◌, ◌*◌, ◌/◌, ◌%◌, ◌^◌, ◌<◌, ◌≡◌, refl, sym, ap, ◌∙◌, arith, Bool, true, ◌&&◌,
  ◌==◌,
}
use bashtion_wasm.Bits.{bit_and}
use bashtion_wasm.Bits.Digits.{lowest_first}
use bashtion_wasm.Bits.Shifts.{mul_pow_suc, none_below}

none_shared : (rounds a : ℕ) → digits (λ b. zero) min rounds a 0 ≡ 0
none_shared zero zero = refl
none_shared zero (suc a) = refl
none_shared (suc rounds) zero = refl
none_shared (suc rounds) (suc a) = omega (arith, none_shared rounds (suc a / 2))

bit_and-zero : (a : ℕ) → bit_and a 0 ≡ 0
bit_and-zero a = bit_and-bitwise a 0 ∙ none_shared a a

bit_and_step : (a b : ℕ) → bit_and a b ≡ bit_and (a / 2) (b / 2) * 2 + min (a % 2) (b % 2)
bit_and_step zero b = omega (arith, bit_and-bitwise 0 b, bit_and-bitwise 0 (b / 2))
bit_and_step (suc a) b =
    bit_and-bitwise (suc a) b
    ∙ lowest_first (λ b. zero) min a b
    ∙ omega (arith, bit_and-bitwise (suc a / 2) (b / 2))

one_fields : (q p : ℕ) → bit_and (q * 2 ^ 0 + 0) (p * 2 ^ 0 + 0) ≡ bit_and q p * 2 ^ 0 + bit_and 0 0
one_fields q p =
    let hi : (n : ℕ) → n * 2 ^ 0 + 0 ≡ n = λ n. omega arith in
    ap₂ bit_and (hi q) (hi p) ∙ sym (hi (bit_and q p))

bit_and_fields :
    (k q r p s : ℕ)
    → r < 2 ^ k
    → s < 2 ^ k
    → bit_and (q * 2 ^ k + r) (p * 2 ^ k + s) ≡ bit_and q p * 2 ^ k + bit_and r s
bit_and_fields zero q r p s hr hs = rw (none_below r hr, none_below s hs) (one_fields q p)
bit_and_fields (suc k) q r p s hr hs =
    let halves : bit_and ((q * 2 ^ suc k + r) / 2) ((p * 2 ^ suc k + s) / 2)
        ≡ bit_and q p * 2 ^ k + bit_and (r / 2) (s / 2) =
      ap₂ bit_and (omega (arith, mul_pow_suc q k)) (omega (arith, mul_pow_suc p k))
      ∙ bit_and_fields k q (r / 2) p (s / 2) (omega (arith, pow-suc 2 k))
          (omega (arith, pow-suc 2 k)) in
    omega (
      arith,
      bit_and_step (q * 2 ^ suc k + r) (p * 2 ^ suc k + s),
      halves,
      bit_and_step r s,
      mul_pow_suc q k,
      mul_pow_suc p k,
      mul_pow_suc (bit_and q p) k,
    )

-- A table of the bytes, checked by evaluation.
bytes_below : ℕ → Bool
bytes_below zero = true
bytes_below (suc n) = (bit_and n 0xff == n) && bytes_below n

byte_below : (n x : ℕ) → bytes_below n ≡ true → x < n → bit_and x 0xff ≡ x
unfolding bytes_below
byte_below zero x h lt = absurd (omega arith)
byte_below (suc n) x h lt = ground (arith, byte_below n x)

masked_byte : (x : ℕ) → x < 256 → bit_and x 0xff ≡ x
unfolding bytes_below
masked_byte x lt = byte_below 256 x refl lt

pub low_byte : (n : ℕ) → bit_and n 0xff ≡ n % 256
low_byte n =
    ap (λ m. bit_and m 0xff) {x = n} {y = n / 256 * 2 ^ 8 + n % 256} (omega arith)
    ∙ bit_and_fields 8 (n / 256) (n % 256) 0 0xff (omega arith) (omega arith)
    ∙ omega (arith, bit_and-zero (n / 256), masked_byte (n % 256) (omega arith))

top_of : (t : ℕ) → t < 2 → bit_and t 1 ≡ t
top_of zero h = refl
top_of (suc zero) h = refl
top_of (suc (suc t)) h = absurd (omega arith)

pub top_bit : (c : ℕ) → c < 2 ^ 32 → bit_and c 0x80000000 ≡ c / 2 ^ 31 * 2 ^ 31
top_bit c h =
    ap (λ m. bit_and m 0x80000000) {x = c} {y = c / 2 ^ 31 * 2 ^ 31 + c % 2 ^ 31} (omega arith)
    ∙ bit_and_fields 31 (c / 2 ^ 31) (c % 2 ^ 31) 1 0 (omega arith) (omega arith)
    ∙ omega (arith, bit_and-zero (c % 2 ^ 31), top_of (c / 2 ^ 31) (omega arith))
