-- ===== src/Transfer/Checksum/Detection.antt =====
-- What the checksum finds.
use bashtion_wasm.Base.{
  ℕ, ◌≤◌, ◌<◌, ◌≡◌, ◌≢◌, sym, ap, ◌∙◌, arith, List, ◌++◌, length, length-append, All, All-append,
}
use bashtion_wasm.Transfer.Checksum.{word, shift_bits, update_all, cksum}
use bashtion_wasm.Transfer.Checksum.Linear.{shift_bits-lt, shift_bits_small}
use bashtion_wasm.Transfer.Checksum.Division.{remainder, message}
use bashtion_wasm.Transfer.Checksum.Posix.{Byte, update_all-message, message-lt, update_all-append}
use bashtion_wasm.Transfer.Checksum.Injective.{
  shift_bits_injective, update_all_injective, same_register,
}
use bashtion_wasm.Transfer.Checksum.Window.{window_injective}

from_zero : (bs : List ℕ) → All Byte bs → update_all 0 bs ≡ shift_bits 32 (remainder 0 (message bs))
from_zero bs h =
    ap (λ (c : ℕ). update_all c bs) (sym (shift_bits_small 32 0 (omega arith)))
    ∙ update_all-message 0 bs (omega arith) h

-- The register behind a file of which a window is given.
windowed :
    (before xs after : List ℕ)
    → All Byte before
    → All Byte xs
    → update_all 0 (before ++ (xs ++ after))
      ≡ update_all (shift_bits 32 (remainder (remainder 0 (message before)) (message xs))) after
windowed before xs after hb hx =
    update_all-append 0 before (xs ++ after)
    ∙ ap (λ (c : ℕ). update_all c (xs ++ after)) (from_zero before hb)
    ∙ update_all-append (shift_bits 32 (remainder 0 (message before))) xs after
    ∙ ap (λ (c : ℕ). update_all c after)
        (update_all-message (remainder 0 (message before)) xs (message-lt 0 before (omega arith) hb)
          hx)

window_equal :
    (before xs ys after : List ℕ)
    → All Byte before
    → All Byte xs
    → All Byte ys
    → All Byte after
    → length xs ≡ length ys
    → length xs ≤ 4
    → cksum (before ++ (xs ++ after)) ≡ cksum (before ++ (ys ++ after))
    → xs ≡ ys
window_equal before xs ys after hb hx hy ha el hl e =
    let r = remainder 0 (message before) in
    let hr : r < word = message-lt 0 before (omega arith) hb in
    let rx = message-lt r xs hr hx in
    let ry = message-lt r ys hr hy in
    let whole : (ws : List ℕ) → All Byte ws → All Byte (before ++ (ws ++ after)) =
      λ ws h. All-append Byte before (ws ++ after) hb (All-append Byte ws after h ha) in
    let lengths : length (before ++ (xs ++ after)) ≡ length (before ++ (ys ++ after)) = omega (
      arith,
      length-append before (xs ++ after),
      length-append before (ys ++ after),
      length-append xs after,
      length-append ys after,
    ) in
    window_injective r xs ys hr el hl hx hy (
      shift_bits_injective 32 (remainder r (message xs)) (remainder r (message ys)) rx ry (
        update_all_injective _ _ after (shift_bits-lt 32 (remainder r (message xs)) rx)
          (shift_bits-lt 32 (remainder r (message ys)) ry) ha
          (sym (windowed before xs after hb hx)
            ∙ same_register (before ++ (xs ++ after)) (before ++ (ys ++ after)) (whole xs hx)
                (whole ys hy) lengths e
            ∙ windowed before ys after hb hy)))

-- Two files of bytes that differ only within a window of at most four bytes, of the same length in
-- both, have different checksums.
pub cksum_window :
    (before xs ys after : List ℕ)
    → All Byte before
    → All Byte xs
    → All Byte ys
    → All Byte after
    → length xs ≡ length ys
    → length xs ≤ 4
    → xs ≢ ys
    → cksum (before ++ (xs ++ after)) ≢ cksum (before ++ (ys ++ after))
cksum_window before xs ys after hb hx hy ha el hl differs e =
    differs (window_equal before xs ys after hb hx hy ha el hl e)
