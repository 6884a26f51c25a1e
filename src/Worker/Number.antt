-- ===== src/Worker/Number.antt =====
-- JavaScript's numbers, as deploy/worker.js makes them of whole ones: exact up to 2^53, and above it
-- rounded to the nearest double, ties to even.
use bashtion_wasm.Base.{
  ℕ, zero, suc, ◌+◌, ◌-◌, ◌*◌, ◌/◌, ◌%◌, ◌^◌, ◌<◌, ◌≡◌, ap, ◌∙◌, arith, Bool, true, false, not,
  ◌==◌, ltb, lt→ltb, ◌||◌, ◌&&◌, Option, none, some, if◌then◌else◌,
}

pub data ℤ : Type 0 where
  pos negsuc : ℕ → ℤ

-- `a - b`.
abbrev pub minus : ℕ → ℕ → ℤ
minus a b = if ltb a b then negsuc (b - a - 1) else pos (a - b)

infixl 55 ◌+ℤ◌
abbrev pub ◌+ℤ◌ : ℤ → ℤ → ℤ
pos a +ℤ pos b = pos (a + b)
pos a +ℤ negsuc b = minus a (b + 1)
negsuc a +ℤ pos b = minus b (a + 1)
negsuc a +ℤ negsuc b = negsuc (a + b + 1)

abbrev pub negate : ℤ → ℤ
negate (pos a) = minus 0 a
negate (negsuc a) = pos (a + 1)

-- `infinite true` is below zero. A zero has no sign.
pub data Double : Type 0 where
  whole : ℤ → Double
  infinite : Bool → Double
  not_a_number : Double

-- The distance of the doubles around `n`: the first power of two from `u` on, of which 2^53 are more.
unfoldable pub spacing_from : ℕ → ℕ → ℕ → ℕ
spacing_from zero u n = u
spacing_from (suc rounds) u n = elim (ltb n (2 ^ 53 * u)) [
  | true ↦ u
  | false ↦ spacing_from rounds (2 * u) n
]

unfoldable pub nearest : ℕ → ℕ → ℕ
nearest u n =
    let below = n / u in
    if ltb (2 * (n % u)) u || (2 * (n % u) == u && below % 2 == 0)
    then below * u
    else (below + 1) * u

-- From 2^1024 on there are none.
unfoldable pub magnitude : ℕ → Option ℕ
magnitude n = let v = nearest (spacing_from 971 1 n) n in if ltb v (2 ^ 1024) then some v else none

unfoldable pub rounded : ℤ → Double
rounded (pos n) = elim (magnitude n) [ none ↦ infinite false | some v ↦ whole (pos v) ]
rounded (negsuc n) = elim (magnitude (n + 1)) [ none ↦ infinite true | some v ↦ whole (minus 0 v) ]

unfoldable pub add : Double → Double → Double
add (whole a) (whole b) = rounded (a +ℤ b)
add (whole a) (infinite below) = infinite below
add (infinite below) (whole b) = infinite below
add (infinite true) (infinite true) = infinite true
add (infinite false) (infinite false) = infinite false
add _ _ = not_a_number

unfoldable pub subtract : Double → Double → Double
subtract a (whole b) = add a (whole (negate b))
subtract a (infinite below) = add a (infinite (not below))
subtract a not_a_number = not_a_number

nearest_itself : (n : ℕ) → nearest 1 n ≡ n
unfolding nearest
nearest_itself n = ground arith

spacing_exact : (rounds n : ℕ) → n < 2 ^ 53 → spacing_from (suc rounds) 1 n ≡ 1
unfolding spacing_from
spacing_exact rounds n h =
    ap (λ (b : Bool). elim b [ true ↦ 1 | false ↦ spacing_from rounds (2 * 1) n ])
      (lt→ltb n (2 ^ 53 * 1) (omega arith))

magnitude_exact : (n : ℕ) → n < 2 ^ 53 → magnitude n ≡ some n
unfolding magnitude
magnitude_exact n h =
    ap (λ (v : ℕ). if ltb v (2 ^ 1024) then some v else none)
      (ap (λ (u : ℕ). nearest u n) (spacing_exact 970 n h) ∙ nearest_itself n)
    ∙ ap (λ (b : Bool). if b then some n else none) (lt→ltb n (2 ^ 1024) (omega arith))

-- Whole numbers below 2^53 are doubles.
pub rounded_exact : (n : ℕ) → n < 2 ^ 53 → rounded (pos n) ≡ whole (pos n)
unfolding rounded
rounded_exact n h =
    ap (λ (o : Option ℕ). elim o [ none ↦ infinite false | some v ↦ whole (pos v) ])
      (magnitude_exact n h)

pub rounded_exact_below : (n : ℕ) → n + 1 < 2 ^ 53 → rounded (negsuc n) ≡ whole (negsuc n)
unfolding rounded
rounded_exact_below n h =
    ap (λ (o : Option ℕ). elim o [ none ↦ infinite true | some v ↦ whole (minus 0 v) ])
      (magnitude_exact (n + 1) h)
    ∙ ground arith
