-- ===== src/Transfer/Checksum/Table.antt =====
-- The table: a byte at once is eight rounds of the register.
use mathlib.Core.Path.{ap₂}
use bashtion_wasm.Base.{
  ℕ, zero, suc, ◌+◌, ◌*◌, ◌/◌, ◌%◌, ◌^◌, ◌<◌, ◌≡◌, sym, ap, ◌∙◌, arith, List, [], ◌∷◌, get_or, All,
}
use bashtion_wasm.Bits.{bit_xor, bit_and, bit_xor-zero, zero-bit_xor, bit_xor_comm}
use bashtion_wasm.Bits.Shifts.{bit_xor_lt, bit_xor_fields}
use bashtion_wasm.Bits.Masks.{low_byte}
use bashtion_wasm.Transfer.Checksum.{
  word, shift_bits, crc_entry, crc_from, crc_table, update, update_all,
}
use bashtion_wasm.Transfer.Checksum.Linear.{shift_bits-lt, shift_bits-xor, shift_bits_small}

get_or-crc_from : (n i k : ℕ) → k < n → get_or (crc_from i n) k 0 ≡ crc_entry (i + k)
unfolding crc_from
get_or-crc_from zero i k h = absurd (omega arith)
get_or-crc_from (suc n) i zero h = ap crc_entry {x = i} {y = i + 0} (omega arith)
get_or-crc_from (suc n) i (suc k) h =
    get_or-crc_from n (i + 1) k (omega arith)
    ∙ ap crc_entry {x = i + 1 + k} {y = i + suc k} (omega arith)

get_or-crc_table : (k : ℕ) → k < 256 → get_or crc_table k 0 ≡ crc_entry k
unfolding crc_table
get_or-crc_table k h = get_or-crc_from 256 0 k h ∙ ap crc_entry {x = 0 + k} {y = k} (omega arith)

-- The byte meets the eight bits that fall out.
met : (c b : ℕ) → bit_xor c (b * 2 ^ 24) ≡ bit_xor (bit_xor (c / 2 ^ 24) b * 2 ^ 24) (c % 2 ^ 24)
met c b =
    let register : c ≡ c / 2 ^ 24 * 2 ^ 24 + c % 2 ^ 24 = omega arith in
    let byte : b * 2 ^ 24 ≡ b * 2 ^ 24 + 0 = omega arith in
    let top = bit_xor (c / 2 ^ 24) b in
    let left : top * 2 ^ 24 ≡ top * 2 ^ 24 + 0 = omega arith in
    let right : c % 2 ^ 24 ≡ 0 * 2 ^ 24 + c % 2 ^ 24 = omega arith in
    ap₂ bit_xor register byte
    ∙ bit_xor_fields 24 (c / 2 ^ 24) (c % 2 ^ 24) b 0 (omega arith) (omega arith)
    ∙ sym (
        ap₂ bit_xor left right
        ∙ bit_xor_fields 24 top 0 0 (c % 2 ^ 24) (omega arith) (omega arith)
        ∙ omega (arith, bit_xor-zero top, zero-bit_xor (c % 2 ^ 24), bit_xor-zero (c % 2 ^ 24)))

top_byte : (c b : ℕ) → c < word → b < 256 → bit_xor (c / 2 ^ 24) b < 2 ^ 8
top_byte c b hc hb = bit_xor_lt 8 (c / 2 ^ 24) b (omega arith) (omega arith)

looked_up :
    (c b : ℕ)
    → c < word
    → b < 256
    → get_or crc_table (bit_and (bit_xor (c / 2 ^ 24) b) 0xff) 0
      ≡ crc_entry (bit_xor (c / 2 ^ 24) b)
looked_up c b hc hb =
    let t = bit_xor (c / 2 ^ 24) b in
    ap (λ (i : ℕ). get_or crc_table i 0) {x = bit_and t 0xff} {y = t}
      (omega (arith, low_byte t, top_byte c b hc hb))
    ∙ get_or-crc_table t (top_byte c b hc hb)

rest_shifted : (c : ℕ) → c * 2 ^ 8 % word ≡ shift_bits 8 (c % 2 ^ 24)
rest_shifted c = omega (arith, shift_bits_small 8 (c % 2 ^ 24) (omega arith))

pub update_lem : (c b : ℕ) → c < word → b < 256 → update c b ≡ shift_bits 8 (bit_xor c (b * 2 ^ 24))
unfolding update
update_lem c b hc hb =
    ap₂ bit_xor (rest_shifted c) (looked_up c b hc hb)
    ∙ bit_xor_comm (shift_bits 8 (c % 2 ^ 24)) (crc_entry (bit_xor (c / 2 ^ 24) b))
    ∙ sym (
        ap (shift_bits 8) (met c b)
        ∙ shift_bits-xor 8 (bit_xor (c / 2 ^ 24) b * 2 ^ 24) (c % 2 ^ 24)
            (omega (arith, top_byte c b hc hb)) (omega arith))

pub update-lt : (c b : ℕ) → c < word → b < 256 → update c b < word
update-lt c b hc hb =
    rw (update_lem c b hc hb)
      (shift_bits-lt 8 (bit_xor c (b * 2 ^ 24)) (bit_xor_lt 32 c (b * 2 ^ 24) hc (omega arith)))

pub update_all-lt :
    (c : ℕ) (bs : List ℕ) → c < word → All (λ b. b < 256) bs → update_all c bs < word
unfolding update_all
update_all-lt c [] hc h = hc
update_all-lt c (b ∷ bs) hc (hb, h) = update_all-lt (update c b) bs (update-lt c b hc hb) h
