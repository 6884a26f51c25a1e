-- ===== src/Transfer/Checksum/Window.antt =====
-- Up to four bytes, behind any register, are told apart.
use bashtion_wasm.Base.{
  ℕ, zero, suc, ◌+◌, ◌*◌, ◌^◌, ◌≤◌, ◌<◌, ◌≡◌, refl, sym, ap, ◌∙◌, arith, List, [], ◌∷◌, length, All,
}
use mathlib.Core.Path.{ap₂, subst}
use bashtion_wasm.Bits.{
  bit_xor, bit_xor_cancel, bit_xor_assoc, bit_xor_comm, bit_xor-zero, zero-bit_xor,
}
use bashtion_wasm.Bits.Shifts.{bit_xor_lt, bit_xor_fields}
use bashtion_wasm.Transfer.Checksum.{word, shift_bits}
use bashtion_wasm.Transfer.Checksum.Linear.{shift_bits-lt, shift_bits-xor, shift_bits_small}
use bashtion_wasm.Transfer.Checksum.Division.{
  remainder, digits_of, message, remainder-append, remainder-digits_of,
}
use bashtion_wasm.Transfer.Checksum.Posix.{Byte, remainder-lt}

-- So many bytes of zeros.
unfoldable idle : ℕ → ℕ → ℕ
idle zero r = r
idle (suc k) r = idle k (shift_bits 8 r)

-- A register and the bytes that come in add up.
remainder-idle :
    (r s : ℕ) (xs : List ℕ)
    → r < word
    → s < word
    → All Byte xs
    → remainder (bit_xor r s) (message xs) ≡ bit_xor (idle (length xs) r) (remainder s (message xs))
unfolding remainder message idle
remainder-idle r s [] hr hs h = refl
remainder-idle r s (x ∷ xs) hr hs (hx, h) =
    remainder-append (bit_xor r s) (digits_of 8 x) (message xs)
    ∙ ap (λ (q : ℕ). remainder q (message xs))
        (remainder-digits_of 8 (bit_xor r s) x (bit_xor_lt 32 r s hr hs) (omega arith) hx
          ∙ ap (λ (q : ℕ). bit_xor q x) (shift_bits-xor 8 r s hr hs)
          ∙ bit_xor_assoc (shift_bits 8 r) (shift_bits 8 s) x
          ∙ ap (bit_xor (shift_bits 8 r)) (sym (remainder-digits_of 8 s x hs (omega arith) hx)))
    ∙ remainder-idle (shift_bits 8 r) (remainder s (digits_of 8 x)) xs (shift_bits-lt 8 r hr)
        (remainder-lt s x hs hx) h
    ∙ ap (bit_xor (idle (length xs) (shift_bits 8 r)))
        (sym (remainder-append s (digits_of 8 x) (message xs)))

-- What the register may hold when so many bytes are to come and none is to fall out.
abbrev room : ℕ → ℕ
room zero = 2 ^ 32
room (suc zero) = 2 ^ 24
room (suc (suc zero)) = 2 ^ 16
room (suc (suc (suc zero))) = 2 ^ 8
room _ = 1

room_left : (k r b : ℕ) → k < 4 → r < room (suc k) → b < 256 → r * 256 + b < room k
room_left zero r b hk hr hb = omega arith
room_left (suc zero) r b hk hr hb = omega arith
room_left (suc (suc zero)) r b hk hr hb = omega arith
room_left (suc (suc (suc zero))) r b hk hr hb = omega arith
room_left (suc (suc (suc (suc k)))) r b hk hr hb = absurd (omega arith)

room_below : (k r : ℕ) → k < 4 → r < room (suc k) → r < 2 ^ 24
room_below zero r hk hr = omega arith
room_below (suc zero) r hk hr = omega arith
room_below (suc (suc zero)) r hk hr = omega arith
room_below (suc (suc (suc zero))) r hk hr = omega arith
room_below (suc (suc (suc (suc k)))) r hk hr = absurd (omega arith)

digits_kept : (r b : ℕ) → r < 2 ^ 24 → b < 256 → remainder r (digits_of 8 b) ≡ r * 256 + b
digits_kept r b hr hb =
    let spread : r * 256 ≡ r * 2 ^ 8 + 0 = omega arith in
    let low : b ≡ 0 * 2 ^ 8 + b = omega arith in
    remainder-digits_of 8 r b (omega arith) (omega arith) hb
    ∙ ap₂ bit_xor (shift_bits_small 8 r (omega arith) ∙ spread) low
    ∙ bit_xor_fields 8 r 0 0 b (omega arith) hb
    ∙ omega (arith, bit_xor-zero r, zero-bit_xor b)

cons_path : {x y : ℕ} {xs ys : List ℕ} → x ≡ y → xs ≡ ys → x ∷ xs ≡ y ∷ ys
cons_path p q = ap₂ (λ x xs. x ∷ xs) p q

-- As long as nothing falls out, the register holds what came in.
register_injective :
    (r s : ℕ) (xs ys : List ℕ)
    → length xs ≡ length ys
    → length xs ≤ 4
    → r < room (length xs)
    → s < room (length ys)
    → All Byte xs
    → All Byte ys
    → remainder r (message xs) ≡ remainder s (message ys)
    → (r ≡ s) × (xs ≡ ys)
unfolding remainder message
register_injective r s [] [] el hl hr hs hx hy e = (e, refl)
register_injective r s [] (y ∷ ys) el hl hr hs hx hy e = absurd (omega arith)
register_injective r s (x ∷ xs) [] el hl hr hs hx hy e = absurd (omega arith)
register_injective r s (x ∷ xs) (y ∷ ys) el hl hr hs (hx, hxs) (hy, hys) e =
    let k = length xs in
    let same : length ys ≡ k = omega arith in
    let hs' : s < room (suc k) = subst (λ (n : ℕ). s < room (suc n)) same hs in
    let r_low : r < 2 ^ 24 = room_below k r (omega arith) hr in
    let s_low : s < 2 ^ 24 = room_below k s (omega arith) hs' in
    let first : remainder (r * 256 + x) (message xs) ≡ remainder (s * 256 + y) (message ys) =
      ap (λ (q : ℕ). remainder q (message xs)) (sym (digits_kept r x r_low hx))
      ∙ sym (remainder-append r (digits_of 8 x) (message xs))
      ∙ e
      ∙ remainder-append s (digits_of 8 y) (message ys)
      ∙ ap (λ (q : ℕ). remainder q (message ys)) (digits_kept s y s_low hy) in
    let roomy : s * 256 + y < room (length ys) =
      subst (λ (n : ℕ). s * 256 + y < room n) (sym same) (room_left k s y (omega arith) hs' hy) in
    let (here, later) =
      register_injective (r * 256 + x) (s * 256 + y) xs ys (sym same) (omega arith)
        (room_left k r x (omega arith) hr hx) roomy hxs hys first in
    (omega (arith, here), cons_path (omega (arith, here)) later)

room_positive : (k : ℕ) → 0 < room k
room_positive zero = omega arith
room_positive (suc zero) = omega arith
room_positive (suc (suc zero)) = omega arith
room_positive (suc (suc (suc zero))) = omega arith
room_positive (suc (suc (suc (suc k)))) = omega arith

from_rest :
    (c : ℕ) (xs : List ℕ)
    → c < word
    → All Byte xs
    → remainder c (message xs) ≡ bit_xor (remainder 0 (message xs)) (idle (length xs) c)
from_rest c xs hc h =
    ap (λ (r : ℕ). remainder r (message xs)) (sym (bit_xor-zero c))
    ∙ remainder-idle c 0 xs hc (omega arith) h
    ∙ bit_xor_comm (idle (length xs) c) (remainder 0 (message xs))

-- Behind any register, the bytes of a window of four are told apart.
pub window_injective :
    (c : ℕ) (xs ys : List ℕ)
    → c < word
    → length xs ≡ length ys
    → length xs ≤ 4
    → All Byte xs
    → All Byte ys
    → remainder c (message xs) ≡ remainder c (message ys)
    → xs ≡ ys
window_injective c xs ys hc el hl hx hy e =
    (register_injective 0 0 xs ys el hl (room_positive (length xs)) (room_positive (length ys)) hx
      hy
      (bit_xor_cancel (remainder 0 (message xs)) (remainder 0 (message ys)) (idle (length xs) c) (
        sym (from_rest c xs hc hx)
        ∙ e
        ∙ from_rest c ys hc hy
        ∙ ap (λ (k : ℕ). bit_xor (remainder 0 (message ys)) (idle k c)) (sym el)))).1
