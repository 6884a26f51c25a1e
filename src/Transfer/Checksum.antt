-- ===== src/Transfer/Checksum.antt =====
-- web/serialfs.js: CRC and cksum. A 32-bit value is its bit pattern, a number below 2 ^ 32; `<<` by a
-- number of bits is a product cut to 32 bits, and `>>>` a quotient.
pub mod Linear
pub mod Table
pub mod Division
pub mod Posix
pub mod Injective
pub mod Window
pub mod Detection
use bashtion_wasm.Base.{
  ℕ, zero, suc, ◌+◌, ◌-◌, ◌*◌, ◌/◌, ◌%◌, ◌^◌, List, [], ◌∷◌, get_or, length, ltb, if◌then◌else◌,
  ◌==◌,
}
use bashtion_wasm.Bits.{bit_xor, bit_and}

abbrev pub word : ℕ
word = 2 ^ 32

abbrev pub poly : ℕ
poly = 0x04c11db7

-- `(c & 0x80000000) ? ((c << 1) ^ 0x04c11db7) : (c << 1)`.
unfoldable pub shift_bit : ℕ → ℕ
shift_bit c = if bit_and c 0x80000000 == 0 then c * 2 % word else bit_xor (c * 2 % word) poly

-- The loop over `k`.
unfoldable pub shift_bits : ℕ → ℕ → ℕ
shift_bits zero c = c
shift_bits (suc k) c = shift_bits k (shift_bit c)

abbrev pub crc_entry : ℕ → ℕ
crc_entry i = shift_bits 8 (i * 2 ^ 24)

-- The entries from `i` on.
unfoldable pub crc_from : ℕ → ℕ → List ℕ
crc_from i zero = []
crc_from i (suc n) = crc_entry i ∷ crc_from (i + 1) n

-- CRC.
unfoldable pub crc_table : List ℕ
crc_table = crc_from 0 256

-- `((c << 8) ^ CRC[((c >>> 24) ^ b) & 0xff]) >>> 0`.
unfoldable pub update : ℕ → ℕ → ℕ
update c b = bit_xor (c * 2 ^ 8 % word) (get_or crc_table (bit_and (bit_xor (c / 2 ^ 24) b) 0xff) 0)

unfoldable pub update_all : ℕ → List ℕ → ℕ
update_all c [] = c
update_all c (b ∷ bs) = update_all (update c b) bs

-- The loop over the length. `n >>>= 8` cuts `n` to 32 bits, so four rounds are all there can be.
unfoldable pub update_length : ℕ → ℕ → ℕ → ℕ
update_length zero c n = c
update_length (suc rounds) c n =
    let more = update_length rounds (update c (bit_and n 0xff)) (n % word / 2 ^ 8) in
    if n == 0 then c else more

-- `(~c) >>> 0`.
abbrev pub complement : ℕ → ℕ
complement c = word - 1 - c

unfoldable pub cksum : List ℕ → ℕ
cksum bytes = complement (update_length 4 (update_all 0 bytes) (length bytes))
