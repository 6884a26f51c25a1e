-- ===== src/Transfer/Checksum/Linear.antt =====
-- One round of the register, as a linear map: a product, and the polynomial where a one falls out.
use mathlib.Core.Path.{ap₂}
use native.Mathlib.Nat.{mul_assoc, mul_comm, pow-suc}
use bashtion_wasm.Base.{
  ℕ, zero, suc, ◌+◌, ◌*◌, ◌/◌, ◌%◌, ◌^◌, ◌≤◌, ◌<◌, ◌≡◌, refl, sym, ap, ◌∙◌, arith, if◌then◌else◌,
  ◌==◌,
}
use bashtion_wasm.Bits.{bit_xor, bit_xor-zero, zero-bit_xor, bit_xor_interchange}
use bashtion_wasm.Bits.Shifts.{bit_xor_lt, bit_xor_fields, bit_xor_double, mul_pow_suc}
use bashtion_wasm.Bits.Masks.{top_bit}
use bashtion_wasm.Transfer.Checksum.{word, poly, shift_bit, shift_bits}

-- The polynomial, where the bit that falls out is a one.
abbrev pub fed : ℕ → ℕ
fed zero = 0
fed (suc t) = poly

-- The two fields of a register: the bit that falls out, and the rest.
top_rest : (c : ℕ) → c ≡ c / 2 ^ 31 * 2 ^ 31 + c % 2 ^ 31
top_rest c = omega arith

xor-top_rest :
    (c d : ℕ)
    → bit_xor c d ≡ bit_xor (c / 2 ^ 31) (d / 2 ^ 31) * 2 ^ 31 + bit_xor (c % 2 ^ 31) (d % 2 ^ 31)
xor-top_rest c d =
    ap₂ bit_xor (top_rest c) (top_rest d)
    ∙ bit_xor_fields 31 (c / 2 ^ 31) (c % 2 ^ 31) (d / 2 ^ 31) (d % 2 ^ 31) (omega arith)
        (omega arith)

rest_doubled : (c : ℕ) → c * 2 % word ≡ c % 2 ^ 31 * 2
rest_doubled c = omega arith

selected : (t r : ℕ) → t < 2 → (if t * 2 ^ 31 == 0 then r else bit_xor r poly) ≡ bit_xor r (fed t)
selected zero r h = sym (bit_xor-zero r)
selected (suc zero) r h = refl
selected (suc (suc t)) r h = absurd (omega arith)

pub shift_bit_lem : (c : ℕ) → c < word → shift_bit c ≡ bit_xor (c % 2 ^ 31 * 2) (fed (c / 2 ^ 31))
unfolding shift_bit
shift_bit_lem c h =
    rw (top_bit c h, rest_doubled c) (selected (c / 2 ^ 31) (c % 2 ^ 31 * 2) (omega arith))

fed_lt : (t : ℕ) → fed t < 2 ^ 32
fed_lt zero = omega arith
fed_lt (suc t) = omega arith

pub shift_bit-lt : (c : ℕ) → c < word → shift_bit c < word
shift_bit-lt c h =
    rw (shift_bit_lem c h)
      (bit_xor_lt 32 (c % 2 ^ 31 * 2) (fed (c / 2 ^ 31)) (omega arith) (fed_lt (c / 2 ^ 31)))

xor_top : (c d : ℕ) → bit_xor c d / 2 ^ 31 ≡ bit_xor (c / 2 ^ 31) (d / 2 ^ 31)
xor_top c d =
    omega
      (arith, xor-top_rest c d, bit_xor_lt 31 (c % 2 ^ 31) (d % 2 ^ 31) (omega arith) (omega arith))

xor_rest : (c d : ℕ) → bit_xor c d % 2 ^ 31 ≡ bit_xor (c % 2 ^ 31) (d % 2 ^ 31)
xor_rest c d =
    omega
      (arith, xor-top_rest c d, bit_xor_lt 31 (c % 2 ^ 31) (d % 2 ^ 31) (omega arith) (omega arith))

fed-xor : (t u : ℕ) → t < 2 → u < 2 → fed (bit_xor t u) ≡ bit_xor (fed t) (fed u)
fed-xor zero u ht hu = rw (zero-bit_xor u) (sym (zero-bit_xor (fed u)))
fed-xor (suc zero) zero ht hu = refl
fed-xor (suc zero) (suc zero) ht hu = refl
fed-xor (suc zero) (suc (suc u)) ht hu = absurd (omega arith)
fed-xor (suc (suc t)) u ht hu = absurd (omega arith)

-- The register is a linear one.
pub shift_bit-xor :
    (c d : ℕ) → c < word → d < word → shift_bit (bit_xor c d) ≡ bit_xor (shift_bit c) (shift_bit d)
shift_bit-xor c d hc hd =
    shift_bit_lem (bit_xor c d) (bit_xor_lt 32 c d hc hd)
    ∙ ap₂ bit_xor (ap (λ (t : ℕ). t * 2) (xor_rest c d)) (ap fed (xor_top c d))
    ∙ ap₂ bit_xor (sym (bit_xor_double (c % 2 ^ 31) (d % 2 ^ 31)))
        (fed-xor (c / 2 ^ 31) (d / 2 ^ 31) (omega arith) (omega arith))
    ∙ bit_xor_interchange (c % 2 ^ 31 * 2) (d % 2 ^ 31 * 2) (fed (c / 2 ^ 31)) (fed (d / 2 ^ 31))
    ∙ sym (ap₂ bit_xor (shift_bit_lem c hc) (shift_bit_lem d hd))

pub shift_bits-lt : (k c : ℕ) → c < word → shift_bits k c < word
unfolding shift_bits
shift_bits-lt zero c h = h
shift_bits-lt (suc k) c h = shift_bits-lt k (shift_bit c) (shift_bit-lt c h)

pub shift_bits-xor :
    (k c d : ℕ)
    → c < word
    → d < word
    → shift_bits k (bit_xor c d) ≡ bit_xor (shift_bits k c) (shift_bits k d)
unfolding shift_bits
shift_bits-xor zero c d hc hd = refl
shift_bits-xor (suc k) c d hc hd =
    ap (shift_bits k) (shift_bit-xor c d hc hd)
    ∙ shift_bits-xor k (shift_bit c) (shift_bit d) (shift_bit-lt c hc) (shift_bit-lt d hd)

-- While no one falls out, a round only doubles.
pub shift_bit_small : (c : ℕ) → c < 2 ^ 31 → shift_bit c ≡ c * 2
shift_bit_small c h =
    shift_bit_lem c (omega arith)
    ∙ ap₂ bit_xor {x = c % 2 ^ 31 * 2} {y = c * 2} (omega arith)
        (ap fed {x = c / 2 ^ 31} {y = 0} (omega arith))
    ∙ bit_xor-zero (c * 2)

no_smaller : (k c : ℕ) → c ≤ c * 2 ^ k
no_smaller zero c = omega arith
no_smaller (suc k) c = omega (arith, no_smaller k c, mul_pow_suc c k)

doubled : (k c : ℕ) → c * 2 * 2 ^ k ≡ c * 2 ^ suc k
doubled k c = mul_assoc c 2 (2 ^ k) ∙ ap (λ (m : ℕ). c * m) (mul_comm 2 (2 ^ k) ∙ sym (pow-suc 2 k))

pub shift_bits_small : (k c : ℕ) → c * 2 ^ k < word → shift_bits k c ≡ c * 2 ^ k
unfolding shift_bits
shift_bits_small zero c h = omega arith
shift_bits_small (suc k) c h =
    ap (shift_bits k) (shift_bit_small c (omega (arith, no_smaller k c, mul_pow_suc c k)))
    ∙ shift_bits_small k (c * 2) (omega (arith, doubled k c))
    ∙ doubled k c
