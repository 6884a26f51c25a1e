-- ===== src/Transfer/Checksum/Injective.antt =====
-- The register forgets nothing: what it holds tells what it held.
use bashtion_wasm.Base.{
  ℕ, zero, suc, ◌*◌, ◌/◌, ◌%◌, ◌^◌, ◌<◌, ◌≡◌, refl, sym, ap, ◌∙◌, arith, List, [], ◌∷◌, length, All,
}
use bashtion_wasm.Bits.{bit_xor, bit_xor_low, bit_xor_cancel}
use bashtion_wasm.Bits.Shifts.{bit_xor_lt}
use bashtion_wasm.Transfer.Checksum.{
  word, shift_bit, shift_bits, update, update_all, update_length, cksum,
}
use bashtion_wasm.Transfer.Checksum.Linear.{fed, shift_bit_lem, shift_bit-lt}
use bashtion_wasm.Transfer.Checksum.Table.{update_lem, update-lt, update_all-lt}
use bashtion_wasm.Bits.Masks.{low_byte}
use bashtion_wasm.Bits.{bit_and}
use bashtion_wasm.Transfer.Checksum.Posix.{Byte, nonzero}

-- The polynomial is odd, so the lowest bit tells what fell out.
fed_low : (t : ℕ) → t < 2 → fed t % 2 ≡ t
fed_low zero h = refl
fed_low (suc zero) h = refl
fed_low (suc (suc t)) h = absurd (omega arith)

fallen_out : (c : ℕ) → c < word → shift_bit c % 2 ≡ c / 2 ^ 31
fallen_out c h =
    ap (λ (s : ℕ). s % 2) (shift_bit_lem c h)
    ∙ bit_xor_low (c % 2 ^ 31 * 2) (fed (c / 2 ^ 31))
    ∙ omega (arith, fed_low (c / 2 ^ 31) (omega arith))

shift_bit_injective : (c d : ℕ) → c < word → d < word → shift_bit c ≡ shift_bit d → c ≡ d
shift_bit_injective c d hc hd e =
    let tops : c / 2 ^ 31 ≡ d / 2 ^ 31 =
      sym (fallen_out c hc) ∙ ap (λ (s : ℕ). s % 2) e ∙ fallen_out d hd in
    let rests : c % 2 ^ 31 * 2 ≡ d % 2 ^ 31 * 2 =
      bit_xor_cancel (c % 2 ^ 31 * 2) (d % 2 ^ 31 * 2) (fed (c / 2 ^ 31)) (
        sym (shift_bit_lem c hc)
        ∙ e
        ∙ shift_bit_lem d hd
        ∙ ap (λ (t : ℕ). bit_xor (d % 2 ^ 31 * 2) (fed t)) (sym tops)) in
    omega (arith, tops, rests)

pub shift_bits_injective :
    (k c d : ℕ) → c < word → d < word → shift_bits k c ≡ shift_bits k d → c ≡ d
unfolding shift_bits
shift_bits_injective zero c d hc hd e = e
shift_bits_injective (suc k) c d hc hd e =
    shift_bit_injective c d hc hd
      (shift_bits_injective k (shift_bit c) (shift_bit d) (shift_bit-lt c hc) (shift_bit-lt d hd) e)

update_injective : (c d b : ℕ) → c < word → d < word → b < 256 → update c b ≡ update d b → c ≡ d
update_injective c d b hc hd hb e = bit_xor_cancel c d (b * 2 ^ 24) (
    shift_bits_injective 8 (bit_xor c (b * 2 ^ 24)) (bit_xor d (b * 2 ^ 24))
      (bit_xor_lt 32 c _ hc (omega arith)) (bit_xor_lt 32 d _ hd (omega arith))
      (sym (update_lem c b hc hb) ∙ e ∙ update_lem d b hd hb))

pub update_all_injective :
    (c d : ℕ) (bs : List ℕ)
    → c < word
    → d < word
    → All Byte bs
    → update_all c bs ≡ update_all d bs
    → c ≡ d
unfolding update_all
update_all_injective c d [] hc hd h e = e
update_all_injective c d (b ∷ bs) hc hd (hb, h) e = update_injective c d b hc hd hb (
    update_all_injective (update c b) (update d b) bs (update-lt c b hc hb) (update-lt d b hd hb) h
      e)

low_byte_lt : (n : ℕ) → bit_and n 0xff < 256
low_byte_lt n = omega (arith, low_byte n)

next_round :
    (k c n : ℕ)
    → update_length (suc k) c (suc n)
      ≡ update_length k (update c (bit_and (suc n) 0xff)) (suc n % word / 2 ^ 8)
unfolding update_length
next_round k c n = rw (nonzero n) refl

update_length-lt : (k c n : ℕ) → c < word → update_length k c n < word
unfolding update_length
update_length-lt zero c n hc = hc
update_length-lt (suc k) c zero hc = hc
update_length-lt (suc k) c (suc n) hc = rw (nonzero n) (
    update_length-lt k (update c (bit_and (suc n) 0xff)) (suc n % word / 2 ^ 8)
      (update-lt c (bit_and (suc n) 0xff) hc (low_byte_lt (suc n))))

update_length_injective :
    (k c d n : ℕ) → c < word → d < word → update_length k c n ≡ update_length k d n → c ≡ d
unfolding update_length
update_length_injective zero c d n hc hd e = e
update_length_injective (suc k) c d zero hc hd e = e
update_length_injective (suc k) c d (suc n) hc hd e =
    let b = bit_and (suc n) 0xff in
    let byte : b < 256 = low_byte_lt (suc n) in
    update_injective c d b hc hd byte (
      update_length_injective k (update c b) (update d b) (suc n % word / 2 ^ 8)
        (update-lt c b hc byte) (update-lt d b hd byte)
        (sym (next_round k c n) ∙ e ∙ next_round k d n))

cksum_register : (bytes : List ℕ) → All Byte bytes → update_all 0 bytes < word
cksum_register bytes h = update_all-lt 0 bytes (omega arith) h

pub same_register :
    (xs ys : List ℕ)
    → All Byte xs
    → All Byte ys
    → length xs ≡ length ys
    → cksum xs ≡ cksum ys
    → update_all 0 xs ≡ update_all 0 ys
unfolding cksum
same_register xs ys hx hy el e =
    let cx = update_length-lt 4 (update_all 0 xs) (length xs) (cksum_register xs hx) in
    let cy = update_length-lt 4 (update_all 0 ys) (length ys) (cksum_register ys hy) in
    update_length_injective 4 (update_all 0 xs) (update_all 0 ys) (length xs) (cksum_register xs hx)
      (cksum_register ys hy)
      (omega (arith, e, cx, cy) ∙ ap (update_length 4 (update_all 0 ys)) (sym el))
