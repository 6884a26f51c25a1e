-- ===== src/Worker/Range.antt =====
-- deploy/worker.js: parseRange. Its expression has one way to match, since `-` is no digit, so it is
-- read off from left to right.
use bashtion_wasm.Base.{
  ℕ, ◌+◌, ◌-◌, ◌*◌, [], ◌∷◌, Option, none, some, codes, ◌==◌, if◌then◌else◌, Str,
}
use bashtion_wasm.Regex.{digit}
use bashtion_wasm.Whitespace.{trim}
use bashtion_wasm.Worker.Number.{pos, Double, whole, rounded, add, subtract}
use bashtion_wasm.Worker.Http.{R2Range, suffix, offset, offset_length}

-- What is left of a text behind a literal that starts it.
unfoldable pub after_prefix : Str → Str → Option Str
after_prefix [] s = some s
after_prefix (p ∷ ps) [] = none
after_prefix (p ∷ ps) (c ∷ cs) = let rest = after_prefix ps cs in if p == c then rest else none

-- `\d*`: the digits that a text starts with, and the rest of it.
unfoldable pub span_digits : Str → Str × Str
span_digits [] = ([], [])
span_digits (c ∷ cs) =
    let rest = span_digits cs in if digit c then (c ∷ rest.0, rest.1) else ([], c ∷ cs)

-- `Number(s)` of digits: the number that they write, rounded.
unfoldable pub number_from : ℕ → Str → ℕ
number_from acc [] = acc
number_from acc (c ∷ cs) = number_from (acc * 10 + (c - b'0')) cs

unfoldable pub number : Str → Double
number s = rounded (pos (number_from 0 s))

-- The range that the two numbers ask for.
unfoldable pub range_of : Str → Str → Option R2Range
range_of [] [] = none
range_of [] (d ∷ e) = some (suffix (number (d ∷ e)))
range_of (c ∷ s) [] = some (offset (number (c ∷ s)))
range_of (c ∷ s) (d ∷ e) = some (
    offset_length (number (c ∷ s))
      (add (subtract (number (d ∷ e)) (number (c ∷ s))) (whole (pos 1))))

-- `$`.
unfoldable pub closed : Str → Option R2Range → Option R2Range
closed [] r = r
closed (d ∷ ds) r = none

-- `-(\d*)$`, behind the first number.
unfoldable pub second_number : Str → Str → Option R2Range
second_number s [] = none
second_number s (c ∷ cs) =
    if c == b'-' then closed (span_digits cs).1 (range_of s (span_digits cs).0) else none

unfoldable pub both_numbers : Option Str → Option R2Range
both_numbers none = none
both_numbers (some t) = second_number (span_digits t).0 (span_digits t).1

unfoldable pub parse_range : Str → Option R2Range
parse_range header = both_numbers (after_prefix (codes "bytes=") (trim header))
