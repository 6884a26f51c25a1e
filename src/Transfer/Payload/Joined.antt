-- ===== src/Transfer/Payload/Joined.antt =====
-- The blocks put together again.
use mathlib.Core.Path.{ap₂}
use bashtion_wasm.Base.{
  ℕ, zero, suc, ◌+◌, ◌-◌, ◌*◌, ◌/◌, ◌≤◌, ◌≡◌, refl, sym, ap, ◌∙◌, arith, List, [], ◌∷◌, ◌++◌,
  length, length-append, length-take, length-drop, drop, take-append-drop, ltb, ltb→lt, ltb→ge, min,
  if◌then◌else◌, ◌==◌, Str, All, false, Bool-cases, inl, inr,
}
use bashtion_wasm.Transfer.Payload.{
  line_limit, block_limit, slice, lines_from, payload, block_count, block,
}

module _ {A : Type 0} where
  drop-nil : (i : ℕ) → drop {A = A} i [] ≡ []
  drop-nil zero = refl
  drop-nil (suc i) = refl

  pub drop_add : (i j : ℕ) (xs : List A) → drop (i + j) xs ≡ drop j (drop i xs)
  drop_add zero j xs = ap (λ (k : ℕ). drop k xs) {x = zero + j} {y = j} (omega arith)
  drop_add (suc i) j [] = drop-nil (suc i + j) ∙ sym (drop-nil j)
  drop_add (suc i) j (x ∷ xs) =
      ap (λ (k : ℕ). drop k (x ∷ xs)) {x = suc i + j} {y = suc (i + j)} (omega arith)
      ∙ drop_add i j xs

  -- Past the end there is nothing.
  pub drop_all : (i : ℕ) (xs : List A) → length xs ≤ i → drop i xs ≡ []
  drop_all zero [] h = refl
  drop_all zero (x ∷ xs) h = absurd (omega arith)
  drop_all (suc i) [] h = refl
  drop_all (suc i) (x ∷ xs) h = drop_all i xs (omega arith)

  pub slice-append : (xs : List A) (i n : ℕ) → slice xs i (i + n) ++ drop (i + n) xs ≡ drop i xs
  slice-append xs i n =
      let width : i + n - i ≡ n = omega arith in
      rw (width, drop_add i n xs) (take-append-drop n (drop i xs))

-- The text with the ends of its lines taken out.
unfoldable pub joined : Str → Str
joined [] = []
joined (c ∷ s) = let rest = joined s in if c == b'\n' then rest else c ∷ rest

abbrev pub NotEnd : ℕ → Type 0
NotEnd c = (c == b'\n') ≡ false

joined-append : (s t : Str) → joined (s ++ t) ≡ joined s ++ joined t
unfolding joined
joined-append [] t = refl
joined-append (c ∷ s) t = elim (Bool-cases (c == b'\n')) [
  | inl end ↦ rw end (joined-append s t)
  | inr other ↦ rw other (ap (λ u. c ∷ u) (joined-append s t))
]

joined_same : (s : Str) → All NotEnd s → joined s ≡ s
unfolding joined
joined_same [] h = refl
joined_same (c ∷ s) (p, h) = rw p (ap (λ u. c ∷ u) (joined_same s h))

-- A line goes with its end, and what is left of the block follows.
joined-line :
    (s rest : Str) (i : ℕ)
    → joined rest ≡ joined (drop (i + line_limit) s)
    → joined (slice s i (i + line_limit) ++ b'\n' ∷ rest) ≡ joined (drop i s)
unfolding joined
joined-line s rest i h =
    joined-append (slice s i (i + line_limit)) (b'\n' ∷ rest)
    ∙ ap (λ (t : Str). joined (slice s i (i + line_limit)) ++ t) h
    ∙ sym (joined-append (slice s i (i + line_limit)) (drop (i + line_limit) s))
    ∙ ap joined (slice-append s i line_limit)

joined-lines_from :
    (n : ℕ) (s : Str) (i : ℕ) → length s ≤ i + n → joined (lines_from n s i) ≡ joined (drop i s)
unfolding lines_from
joined-lines_from zero s i h = ap joined (sym (drop_all i s (omega arith)))
joined-lines_from (suc n) s i h = elim (Bool-cases (ltb i (length s))) [
  | inl inside ↦ rw inside (
      joined-line s (lines_from n s (i + line_limit)) i
        (joined-lines_from n s (i + line_limit) (omega arith)))
  | inr past ↦ rw past (ap joined (sym (drop_all i s (ltb→ge i (length s) past))))
]

pub joined-payload : (s : Str) → joined (payload s) ≡ joined s
unfolding payload
joined-payload s = joined-lines_from (length s) s 0 (omega arith)

-- All that is sent: `n` payloads, from block `b` on.
unfoldable pub payloads : Str → ℕ → ℕ → Str
payloads b64 b zero = []
payloads b64 b (suc n) = payload (block b64 b) ++ payloads b64 (b + 1) n

joined-payloads :
    (b64 : Str) (b n : ℕ)
    → length b64 ≤ (b + n) * block_limit
    → joined (payloads b64 b n) ≡ joined (drop (b * block_limit) b64)
unfolding payloads
joined-payloads b64 b zero h = ap joined (sym (drop_all (b * block_limit) b64 (omega arith)))
joined-payloads b64 b (suc n) h =
    let width : (b + 1) * block_limit ≡ b * block_limit + block_limit = omega arith in
    joined-append (payload (block b64 b)) (payloads b64 (b + 1) n)
    ∙ ap₂ (λ (s t : Str). s ++ t) (joined-payload (block b64 b))
        (joined-payloads b64 (b + 1) n (omega arith))
    ∙ sym (joined-append (block b64 b) (drop ((b + 1) * block_limit) b64))
    ∙ ap joined (rw width (slice-append b64 (b * block_limit) block_limit))

-- The payloads of all blocks, the ends of the lines taken out, are the text that was cut up, if it has
-- no such end itself.
pub joined-blocks : (b64 : Str) → All NotEnd b64 → joined (payloads b64 0 (block_count b64)) ≡ b64
joined-blocks b64 h = joined-payloads b64 0 (block_count b64) (omega arith) ∙ joined_same b64 h

-- What a block takes up on the wire.
length-slice : (s : Str) (i n : ℕ) → length (slice s i (i + n)) ≡ min n (length s - i)
length-slice s i n = omega (arith, length-take (i + n - i) (drop i s), length-drop i s)

length-lines_from :
    (n : ℕ) (s : Str) (i : ℕ)
    → length (lines_from n s i) ≤ (length s - i) + (length s - i + (line_limit - 1)) / line_limit
unfolding lines_from
length-lines_from zero s i = omega arith
length-lines_from (suc n) s i = elim (Bool-cases (ltb i (length s))) [
  | inl inside ↦ rw inside (
      omega (
        arith,
        ltb→lt i (length s) inside,
        length-append (slice s i (i + line_limit)) (b'\n' ∷ lines_from n s (i + line_limit)),
        length-slice s i line_limit,
        length-lines_from n s (i + line_limit),
      ))
  | inr past ↦ rw past (omega arith)
]

pub length-payload : (b64 : Str) (b : ℕ) → length (payload (block b64 b)) ≤ 2052
unfolding payload
length-payload b64 b = omega (
  arith,
  length-lines_from (length (block b64 b)) (block b64 b) 0,
  length-take ((b + 1) * block_limit - b * block_limit) (drop (b * block_limit) b64),
)
