-- ===== src/Transfer/Checksum/Division.antt =====
-- POSIX's definition of `cksum`: a division of polynomials over GF(2), bit by bit, with no table.
use native.Mathlib.Nat.{pow-suc}
use bashtion_wasm.Base.{
  ℕ, zero, suc, ◌+◌, ◌-◌, ◌*◌, ◌/◌, ◌%◌, ◌^◌, ◌<◌, ◌≡◌, refl, sym, ap, ◌∙◌, arith, List, [], ◌∷◌,
  ◌++◌, length, replicate, ltb, lt→ltb, le→ltb, if◌then◌else◌, ◌==◌,
}
use bashtion_wasm.Bits.{bit_xor, bit_xor-zero, zero-bit_xor, bit_xor_assoc, bit_xor_comm}
use bashtion_wasm.Bits.Shifts.{bit_xor_lt, bit_xor_fields}
use bashtion_wasm.Transfer.Checksum.{word, poly, shift_bit, shift_bits}
use bashtion_wasm.Transfer.Checksum.Linear.{
  fed, shift_bit_lem, shift_bit-xor, shift_bits-lt, shift_bit_small,
}

-- One digit of the dividend is brought down, and the divisor, 2 ^ 32 + poly, is taken off where the
-- degree allows it.
unfoldable pub divide : ℕ → ℕ → ℕ
divide r bit = let s = r * 2 + bit in if ltb s word then s else bit_xor s (word + poly)

unfoldable pub remainder : ℕ → List ℕ → ℕ
remainder r [] = r
remainder r (bit ∷ bits) = remainder (divide r bit) bits

-- The `k` lowest digits of a number, the highest first.
unfoldable pub digits_of : ℕ → ℕ → List ℕ
digits_of zero n = []
digits_of (suc k) n = digits_of k (n / 2) ++ n % 2 ∷ []

unfoldable pub message : List ℕ → List ℕ
message [] = []
message (b ∷ bs) = digits_of 8 b ++ message bs

-- A number by as few bytes as there can be, the lowest first.
unfoldable pub octets : ℕ → ℕ → List ℕ
octets zero n = []
octets (suc fuel) n = let more = octets fuel (n / 256) in if n == 0 then [] else n % 256 ∷ more

abbrev pub dividend : List ℕ → List ℕ
dividend bytes = message (bytes ++ octets (length bytes) (length bytes)) ++ replicate 32 0

unfoldable pub posix_cksum : List ℕ → ℕ
posix_cksum bytes = word - 1 - remainder 0 (dividend bytes)

digit_added : (c bit : ℕ) → bit < 2 → c * 2 + bit ≡ bit_xor (c * 2) bit
digit_added c bit h = sym (
    ap (λ (m : ℕ). bit_xor m bit) {x = c * 2} {y = c * 2 ^ 1 + 0} (omega arith)
    ∙ ap (bit_xor (c * 2 ^ 1 + 0)) {x = bit} {y = 0 * 2 ^ 1 + bit} (omega arith)
    ∙ bit_xor_fields 1 c 0 0 bit (omega arith) (omega arith)
    ∙ omega (arith, bit_xor-zero c, zero-bit_xor bit))

-- The divisor is taken off.
taken_off : (m : ℕ) → m < word → bit_xor (word + m) (word + poly) ≡ bit_xor m poly
taken_off m h =
    ap (λ (x : ℕ). bit_xor x (word + poly)) {x = word + m} {y = 1 * 2 ^ 32 + m} (omega arith)
    ∙ bit_xor_fields 32 1 m 1 poly h (omega arith)
    ∙ omega arith

swapped : (a b c : ℕ) → bit_xor (bit_xor a b) c ≡ bit_xor (bit_xor a c) b
swapped a b c = bit_xor_assoc a b c ∙ ap (bit_xor a) (bit_xor_comm b c) ∙ sym (bit_xor_assoc a c b)

-- What is brought down, by the bit that falls out.
divide_top :
    (t m bit s : ℕ)
    → t < 2
    → m < 2 ^ 31
    → bit < 2
    → s ≡ t * word + (m * 2 + bit)
    → (if ltb s word then s else bit_xor s (word + poly)) ≡ bit_xor (bit_xor (m * 2) (fed t)) bit
divide_top zero m bit s ht hm hb e =
    let same : s ≡ m * 2 + bit = omega arith in
    rw (lt→ltb s word (omega arith), bit_xor-zero (m * 2)) (same ∙ digit_added m bit hb)
divide_top (suc zero) m bit s ht hm hb e = rw (le→ltb s word (omega arith)) (
    ap (λ (x : ℕ). bit_xor x (word + poly)) {x = s} {y = word + (m * 2 + bit)} (omega arith)
    ∙ taken_off (m * 2 + bit) (omega arith)
    ∙ ap (λ (x : ℕ). bit_xor x poly) (digit_added m bit hb)
    ∙ swapped (m * 2) bit poly)
divide_top (suc (suc t)) m bit s ht hm hb e = absurd (omega arith)

pub divide_lem : (r bit : ℕ) → r < word → bit < 2 → divide r bit ≡ bit_xor (shift_bit r) bit
unfolding divide
divide_lem r bit h hb =
    divide_top (r / 2 ^ 31) (r % 2 ^ 31) bit (r * 2 + bit) (omega arith) (omega arith) hb
      (omega arith)
    ∙ ap (λ (s : ℕ). bit_xor s bit) (sym (shift_bit_lem r h))

pub remainder-append :
    (r : ℕ) (xs ys : List ℕ) → remainder r (xs ++ ys) ≡ remainder (remainder r xs) ys
unfolding remainder
remainder-append r [] ys = refl
remainder-append r (x ∷ xs) ys = remainder-append (divide r x) xs ys

shift_bit-shift_bits : (k r : ℕ) → shift_bit (shift_bits k r) ≡ shift_bits k (shift_bit r)
unfolding shift_bits
shift_bit-shift_bits zero r = refl
shift_bit-shift_bits (suc k) r = shift_bit-shift_bits k (shift_bit r)

shift_bit-half : (n : ℕ) → n < word → bit_xor (shift_bit (n / 2)) (n % 2) ≡ n
shift_bit-half n h =
    ap (λ (m : ℕ). bit_xor m (n % 2)) (shift_bit_small (n / 2) (omega arith))
    ∙ sym (digit_added (n / 2) (n % 2) (omega arith))
    ∙ omega arith

-- Of a number's digits, as many as there are shifts come in.
pub remainder-digits_of :
    (k r n : ℕ)
    → r < word
    → n < word
    → n < 2 ^ k
    → remainder r (digits_of k n) ≡ bit_xor (shift_bits k r) n
unfolding remainder digits_of shift_bits
remainder-digits_of zero r n h hw hn =
    sym (ap (bit_xor r) {x = n} {y = 0} (omega arith) ∙ bit_xor-zero r)
remainder-digits_of (suc k) r n h hw hn =
    remainder-append r (digits_of k (n / 2)) (n % 2 ∷ [])
    ∙ ap (λ (s : ℕ). divide s (n % 2))
        (remainder-digits_of k r (n / 2) h (omega arith) (omega (arith, pow-suc 2 k)))
    ∙ divide_lem (bit_xor (shift_bits k r) (n / 2)) (n % 2)
        (bit_xor_lt 32 _ _ (shift_bits-lt k r h) (omega arith)) (omega arith)
    ∙ ap (λ (s : ℕ). bit_xor s (n % 2))
        (shift_bit-xor (shift_bits k r) (n / 2) (shift_bits-lt k r h) (omega arith)
          ∙ ap (λ (s : ℕ). bit_xor s (shift_bit (n / 2))) (shift_bit-shift_bits k r))
    ∙ bit_xor_assoc (shift_bits k (shift_bit r)) (shift_bit (n / 2)) (n % 2)
    ∙ ap (bit_xor (shift_bits k (shift_bit r))) (shift_bit-half n hw)
