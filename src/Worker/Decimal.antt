-- ===== src/Worker/Decimal.antt =====
-- What decimal digits stand for, and that `Number` in deploy/worker.js gives it where it is exact.
use native.Mathlib.Nat.{mul-le-mul_right, pow-le-pow_right, pow-succ'}
use bashtion_wasm.Base.{
  ℕ, suc, ◌+◌, ◌-◌, ◌*◌, ◌^◌, ◌≤◌, ◌<◌, ◌≡◌, ◌≢◌, ap, sym, ◌∙◌, arith, true, [], ◌∷◌, length, All,
  ltb, Bool-cases, inl, inr, Str,
}
use bashtion_wasm.Regex.{digit}
use bashtion_wasm.Worker.Number.{
  ℤ, pos, negsuc, minus, ◌+ℤ◌, whole, rounded, add, subtract, rounded_exact, rounded_exact_below,
}
use bashtion_wasm.Worker.Range.{number_from, number}

abbrev pub IsDigits : Str → Type 0
IsDigits = All (λ c. digit c ≡ true)

-- The value of decimal digits: each counts for its power of ten.
unfoldable pub value : Str → ℕ
value [] = 0
value (c ∷ s) = (c - b'0') * 10 ^ length s + value s

-- A text that writes a number.
pub record Numeral (s : Str) (n : ℕ) : Type 0 where
  pub digits : IsDigits s
  pub filled : s ≢ []
  pub reads : value s ≡ n

shifted : (acc d p v : ℕ) → (acc * 10 + d) * p + v ≡ acc * (10 * p) + (d * p + v)
shifted acc d p v = grind arith

next_power : (k : ℕ) → 10 ^ suc k ≡ 10 * 10 ^ k
next_power k = pow-succ' 10 k

number_from-value : (s : Str) (acc : ℕ) → number_from acc s ≡ acc * 10 ^ length s + value s
unfolding number_from value
number_from-value [] acc = omega arith
number_from-value (c ∷ s) acc =
    number_from-value s (acc * 10 + (c - b'0'))
    ∙ shifted acc (c - b'0') (10 ^ length s) (value s)
    ∙ ap (λ (p : ℕ). acc * p + ((c - b'0') * 10 ^ length s + value s)) (sym (next_power (length s)))

value_bound : (s : Str) → IsDigits s → value s < 10 ^ length s
unfolding value
value_bound [] h = omega arith
value_bound (c ∷ s) h = omega (
  arith,
  value_bound s h.1,
  next_power (length s),
  mul-le-mul_right (10 ^ length s) (at_most_nine c h.0),
)
  where
    at_most_nine : (c : ℕ) → digit c ≡ true → c - b'0' ≤ 9
    at_most_nine c h = ground arith

pub value_exact : (s : Str) → IsDigits s → length s ≤ 15 → value s < 10 ^ 15
value_exact s h short =
    omega (arith, value_bound s h, pow-le-pow_right {n = 10} (omega arith) short)

pub number_exact : (s : Str) → IsDigits s → length s ≤ 15 → number s ≡ whole (pos (value s))
unfolding number
number_exact s h short =
    let same : number_from 0 s ≡ value s = number_from-value s 0 ∙ omega arith in
    ap (λ (n : ℕ). rounded (pos n)) same
    ∙ rounded_exact (value s) (omega (arith, value_exact s h short))

-- From the byte `m` to the byte `n`, both included. Where the end is before the start by more than one, the
-- length is below zero.
abbrev pub Spans : ℕ → ℕ → ℤ → Type 0
Spans m n (pos k) = m + k ≡ n + 1
Spans m n (negsuc k) = m ≡ n + 1 + (k + 1)

pub Spans-minus : (m n : ℕ) → Spans m n (minus (n + 1) m)
Spans-minus m n = elim (Bool-cases (ltb (n + 1) m)) [
  | inl before ↦ rw before (ground arith)
  | inr other ↦ rw other (ground arith)
]

pub Spans-unique : (m n : ℕ) (l : ℤ) → Spans m n l → minus (n + 1) m ≡ l
Spans-unique m n (pos k) h = ground arith
Spans-unique m n (negsuc k) h = ground arith

rounded-minus : (a b : ℕ) → a < 2 ^ 53 → b < 2 ^ 53 → rounded (minus a b) ≡ whole (minus a b)
rounded-minus a b ha hb = elim (Bool-cases (ltb a b)) [
  | inl less ↦ rw less (rounded_exact_below (b - a - 1) (ground arith))
  | inr other ↦ rw other (rounded_exact (a - b) (omega arith))
]

taken_away : (m n : ℕ) → pos n +ℤ minus 0 m ≡ minus n m
taken_away m n = ground arith

one_more : (m n : ℕ) → minus n m +ℤ pos 1 ≡ minus (n + 1) m
one_more m n = ground arith

-- `n - m + 1` of doubles.
pub span_exact :
    (m n : ℕ)
    → m < 10 ^ 15
    → n < 10 ^ 15
    → add (subtract (whole (pos n)) (whole (pos m))) (whole (pos 1)) ≡ whole (minus (n + 1) m)
unfolding add subtract
span_exact m n hm hn =
    let apart : subtract (whole (pos n)) (whole (pos m)) ≡ whole (minus n m) =
      ap rounded (taken_away m n) ∙ rounded-minus n m (omega arith) (omega arith) in
    ap (λ d. add d (whole (pos 1))) apart
    ∙ ap rounded (one_more m n)
    ∙ rounded-minus (n + 1) m (omega arith) (omega arith)
