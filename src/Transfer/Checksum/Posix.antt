-- ===== src/Transfer/Checksum/Posix.antt =====
-- The table-driven checksum and POSIX's division.
use mathlib.Core.Path.{ap₂}
use native.Mathlib.Nat.{pow-suc}
use bashtion_wasm.Base.{
  ℕ, zero, suc, ◌+◌, ◌-◌, ◌*◌, ◌/◌, ◌%◌, ◌^◌, ◌≤◌, ◌<◌, ◌≡◌, refl, sym, ap, ◌∙◌, arith, List, [],
  ◌∷◌, ◌++◌, length, replicate, All, All-append, false, ◌==◌,
}
use bashtion_wasm.Bits.{bit_xor, bit_and, bit_xor-zero}
use bashtion_wasm.Bits.Shifts.{bit_xor_lt}
use bashtion_wasm.Bits.Masks.{low_byte}
use bashtion_wasm.Transfer.Checksum.{
  word, shift_bit, shift_bits, update, update_all, update_length, cksum,
}
use bashtion_wasm.Transfer.Checksum.Linear.{
  shift_bit-lt, shift_bits-lt, shift_bits-xor, shift_bits_small,
}
use bashtion_wasm.Transfer.Checksum.Table.{update_lem}
use bashtion_wasm.Transfer.Checksum.Division.{
  remainder, digits_of, message, octets, posix_cksum, divide_lem, remainder-append,
  remainder-digits_of,
}

abbrev pub Byte : ℕ → Type 0
Byte b = b < 256

shift_bits_add : (j k c : ℕ) → shift_bits (j + k) c ≡ shift_bits k (shift_bits j c)
unfolding shift_bits
shift_bits_add zero k c = ap (λ (i : ℕ). shift_bits i c) {x = 0 + k} {y = k} (omega arith)
shift_bits_add (suc j) k c =
    ap (λ (i : ℕ). shift_bits i c) {x = suc j + k} {y = suc (j + k)} (omega arith)
    ∙ shift_bits_add j k (shift_bit c)

-- The register that the code keeps is the remainder, 32 rounds on.
byte_in :
    (r b : ℕ)
    → r < word
    → b < 256
    → shift_bits 32 (remainder r (digits_of 8 b)) ≡ update (shift_bits 32 r) b
byte_in r b hr hb =
    ap (shift_bits 32) (remainder-digits_of 8 r b hr (omega arith) hb)
    ∙ shift_bits-xor 32 (shift_bits 8 r) b (shift_bits-lt 8 r hr) (omega arith)
    ∙ ap₂ bit_xor (sym (shift_bits_add 8 32 r) ∙ shift_bits_add 32 8 r)
        (shift_bits_add 24 8 b ∙ ap (shift_bits 8) (shift_bits_small 24 b (omega arith)))
    ∙ sym (shift_bits-xor 8 (shift_bits 32 r) (b * 2 ^ 24) (shift_bits-lt 32 r hr) (omega arith))
    ∙ sym (update_lem (shift_bits 32 r) b (shift_bits-lt 32 r hr) hb)

pub remainder-lt : (r b : ℕ) → r < word → b < 256 → remainder r (digits_of 8 b) < word
remainder-lt r b hr hb =
    rw (remainder-digits_of 8 r b hr (omega arith) hb)
      (bit_xor_lt 32 (shift_bits 8 r) b (shift_bits-lt 8 r hr) (omega arith))

pub update_all-message :
    (r : ℕ) (bs : List ℕ)
    → r < word
    → All Byte bs
    → update_all (shift_bits 32 r) bs ≡ shift_bits 32 (remainder r (message bs))
unfolding update_all remainder message
update_all-message r [] hr h = refl
update_all-message r (b ∷ bs) hr (hb, h) =
    ap (λ (c : ℕ). update_all c bs) (sym (byte_in r b hr hb))
    ∙ update_all-message (remainder r (digits_of 8 b)) bs (remainder-lt r b hr hb) h
    ∙ ap (shift_bits 32) (sym (remainder-append r (digits_of 8 b) (message bs)))

pub nonzero : (n : ℕ) → (suc n == 0) ≡ false
nonzero n = ground arith

-- The bytes of the length, in as many rounds as the code takes.
update_length-octets :
    (k f c n : ℕ)
    → n < 2 ^ 32
    → n < 256 ^ k
    → n ≤ f
    → update_length k c n ≡ update_all c (octets f n)
unfolding update_length update_all octets
update_length-octets zero zero c zero hw hk hf = refl
update_length-octets zero (suc f) c zero hw hk hf = refl
update_length-octets zero f c (suc n) hw hk hf = absurd (omega arith)
update_length-octets (suc k) zero c zero hw hk hf = refl
update_length-octets (suc k) (suc f) c zero hw hk hf = refl
update_length-octets (suc k) zero c (suc n) hw hk hf = absurd (omega arith)
update_length-octets (suc k) (suc f) c (suc n) hw hk hf =
    let lowest : bit_and (suc n) 0xff ≡ suc n % 256 = low_byte (suc n) in
    let others : suc n % word / 256 ≡ suc n / 256 = omega arith in
    rw (nonzero n, lowest, others)
      (update_length-octets k f (update c (suc n % 256)) (suc n / 256) (omega arith)
        (omega (arith, pow-suc 256 k)) (omega arith))

octets-Byte : (f n : ℕ) → All Byte (octets f n)
unfolding octets
octets-Byte zero n = tt
octets-Byte (suc f) zero = tt
octets-Byte (suc f) (suc n) = rw (nonzero n) (omega arith, octets-Byte f (suc n / 256))

pub update_all-append :
    (c : ℕ) (xs ys : List ℕ) → update_all c (xs ++ ys) ≡ update_all (update_all c xs) ys
unfolding update_all
update_all-append c [] ys = refl
update_all-append c (x ∷ xs) ys = update_all-append (update c x) xs ys

remainder-zeros : (k r : ℕ) → r < word → remainder r (replicate k 0) ≡ shift_bits k r
unfolding remainder shift_bits
remainder-zeros zero r h = refl
remainder-zeros (suc k) r h =
    ap (λ (s : ℕ). remainder s (replicate k 0))
      (divide_lem r 0 h (omega arith) ∙ bit_xor-zero (shift_bit r))
    ∙ remainder-zeros k (shift_bit r) (shift_bit-lt r h)

pub message-lt : (r : ℕ) (bs : List ℕ) → r < word → All Byte bs → remainder r (message bs) < word
unfolding remainder message
message-lt r [] hr h = hr
message-lt r (b ∷ bs) hr (hb, h) =
    rw (remainder-append r (digits_of 8 b) (message bs))
      (message-lt (remainder r (digits_of 8 b)) bs (remainder-lt r b hr hb) h)

-- For every file of less than 2 ^ 32 bytes, the code computes what POSIX defines: the remainder of a
-- division of the bits of the file and of its length, shifted by 32, and complemented.
pub cksum_posix :
    (bytes : List ℕ) → All Byte bytes → length bytes < 2 ^ 32 → cksum bytes ≡ posix_cksum bytes
unfolding cksum posix_cksum shift_bits remainder update_all shift_bit
cksum_posix bytes h hl =
    let n = length bytes in
    let all = bytes ++ octets n n in
    let bounded : All Byte all = All-append Byte bytes (octets n n) h (octets-Byte n n) in
    ap (λ (c : ℕ). word - 1 - c)
      (update_length-octets 4 n (update_all 0 bytes) n hl hl (omega arith)
        ∙ sym (update_all-append 0 bytes (octets n n))
        ∙ update_all-message 0 all (omega arith) bounded
        ∙ sym (
            remainder-zeros 32 (remainder 0 (message all)) (message-lt 0 all (omega arith) bounded))
        ∙ sym (remainder-append 0 (message all) (replicate 32 0)))
