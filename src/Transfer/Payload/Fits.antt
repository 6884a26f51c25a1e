-- ===== src/Transfer/Payload/Fits.antt =====
-- What the guest's terminal takes: lines of at most 512 characters, and blocks within its buffer.
use bashtion_wasm.Base.{
  ℕ, zero, suc, ◌+◌, ◌-◌, ◌≤◌, ◌≡◌, refl, arith, [], ◌∷◌, ◌++◌, length, length-take, drop, Bool,
  true, false, Bool-cases, inl, inr, ltb, if◌then◌else◌, ◌==◌, Str,
}
use bashtion_wasm.Transfer.Payload.{line_limit, slice, lines_from, payload, block}
use bashtion_wasm.Transfer.Payload.Joined.{length-payload}

-- Each line ends within 512 characters, the first one within `left`.
unfoldable pub lines_fit : ℕ → Str → Bool
lines_fit left [] = true
lines_fit zero (c ∷ s) = let rest = lines_fit line_limit s in if c == b'\n' then rest else false
lines_fit (suc left) (c ∷ s) =
    let rest = lines_fit line_limit s in
    let more = lines_fit left s in if c == b'\n' then rest else more

-- A line, whatever it holds, and its end.
fits-line :
    (left : ℕ) (s rest : Str)
    → length s ≤ left
    → length s ≤ line_limit
    → lines_fit line_limit rest ≡ true
    → lines_fit left (s ++ b'\n' ∷ rest) ≡ true
unfolding lines_fit
fits-line zero [] rest h k r = r
fits-line (suc left) [] rest h k r = r
fits-line zero (c ∷ s) rest h k r = absurd (omega arith)
fits-line (suc left) (c ∷ s) rest h k r = elim (Bool-cases (c == b'\n')) [
  | inl end ↦ rw end (fits-line line_limit s rest (omega arith) (omega arith) r)
  | inr other ↦ rw other (fits-line left s rest (omega arith) (omega arith) r)
]

fits-lines_from : (n : ℕ) (s : Str) (i : ℕ) → lines_fit line_limit (lines_from n s i) ≡ true
unfolding lines_from lines_fit
fits-lines_from zero s i = refl
fits-lines_from (suc n) s i = elim (Bool-cases (ltb i (length s))) [
  | inl inside ↦ rw inside (
      fits-line line_limit (slice s i (i + line_limit)) (lines_from n s (i + line_limit))
        (omega (arith, length-take (i + line_limit - i) (drop i s)))
        (omega (arith, length-take (i + line_limit - i) (drop i s)))
        (fits-lines_from n s (i + line_limit)))
  | inr past ↦ rw past refl
]

-- What the guest is sent for a block, whatever the text: lines of at most 512 characters, and at most
-- 2,052 characters in all.
pub payload_fits :
    (b64 : Str) (b : ℕ)
    → (lines_fit line_limit (payload (block b64 b)) ≡ true)
      × (length (payload (block b64 b)) ≤ 2052)
unfolding payload
payload_fits b64 b = (fits-lines_from (length (block b64 b)) (block b64 b) 0, length-payload b64 b)
