-- ===== src/Worker/Reads.antt =====
-- How deploy/worker.js's parseRange takes a header apart.
use bashtion_wasm.Base.{
  ◌≡◌, ◌↔◌, refl, sym, ◌∙◌, ap, [], ◌∷◌, ◌++◌, Option, some, codes, arith, Bool-cases, Option-cases,
  ==_iff, inl, inr, Str, ◌==◌,
}
use mathlib.Core.Path.{ap₂}
use mathlib.Core.List.{append-nil}
use bashtion_wasm.Whitespace.{trim}
use bashtion_wasm.Worker.Http.{R2Range}
use bashtion_wasm.Worker.Range.{
  after_prefix, span_digits, range_of, closed, second_number, both_numbers, parse_range,
}
use bashtion_wasm.Worker.Decimal.{IsDigits}

span_digits-IsDigits : (s : Str) → IsDigits (span_digits s).0
unfolding span_digits
span_digits-IsDigits [] = tt
span_digits-IsDigits (c ∷ s) = ground (arith, span_digits-IsDigits s)

span_digits-append : (s : Str) → (span_digits s).0 ++ (span_digits s).1 ≡ s
unfolding span_digits
span_digits-append [] = refl
span_digits-append (c ∷ s) = ground (arith, span_digits-append s)

span_digits_of : (s t : Str) → IsDigits s → span_digits (s ++ (b'-' ∷ t)) ≡ (s, b'-' ∷ t)
unfolding span_digits
span_digits_of [] t h = refl
span_digits_of (c ∷ s) t h = rw (h.0, span_digits, span_digits_of s t h.1)

span_digits_all : (s : Str) → IsDigits s → span_digits s ≡ (s, [])
unfolding span_digits
span_digits_all [] h = refl
span_digits_all (c ∷ s) h = rw (h.0, span_digits, span_digits_all s h.1)

after_prefix_of : (p s : Str) → after_prefix p (p ++ s) ≡ some s
unfolding after_prefix
after_prefix_of [] s = refl
after_prefix_of (c ∷ p) s = ground (arith, after_prefix_of p s)

after_prefix-split : (p s t : Str) → after_prefix p s ≡ some t → s ≡ p ++ t
unfolding after_prefix
after_prefix-split [] s t e = ground arith
after_prefix-split (c ∷ p) [] t e = ground arith
after_prefix-split (c ∷ p) (d ∷ s) t e = ground (arith, after_prefix-split p s t)

-- How a header is read: `bytes=`, a number or none, `-`, and a number or none.
pub record Reads (header : Str) (range : R2Range) : Type 0 where
  pub first : Str
  pub second : Str
  pub reads : trim header ≡ codes "bytes=" ++ (first ++ (b'-' ∷ second))
  pub first_digits : IsDigits first
  pub second_digits : IsDigits second
  pub means : range_of first second ≡ some range

closed-some :
    (t : Str) (r : Option R2Range) (x : R2Range) → closed t r ≡ some x → (t ≡ []) × (r ≡ some x)
unfolding closed
closed-some [] r x e = (refl, e)
closed-some (d ∷ ds) r x e = absurd (cc)

second_number-IsDigits :
    (s t : Str) (range : R2Range)
    → second_number s t ≡ some range
    → (e : Str) × ((t ≡ b'-' ∷ e) × IsDigits e × (range_of s e ≡ some range))
unfolding second_number
second_number-IsDigits s [] range h = absurd (cc)
second_number-IsDigits s (c ∷ cs) range h = elim (Bool-cases (c == b'-')) [
  | inr other ↦ absurd (ground arith)
  | inl dash ↦
      let (all, asked) = closed-some (span_digits cs).1 _ range (ground arith) in
      let cs_is : cs ≡ (span_digits cs).0 =
        sym (span_digits-append cs) ∙ ap ((span_digits cs).0 ++◌) all ∙ append-nil _ in
      (
        (span_digits cs).0,
        (ap₂ (◌∷◌) ((==_iff c b'-').0 dash) cs_is, span_digits-IsDigits cs, asked),
      )
]

second_number_of : (s e : Str) → IsDigits e → second_number s (b'-' ∷ e) ≡ range_of s e
unfolding second_number closed
second_number_of s e h = rw (span_digits_all e h, closed)

both_numbers_of :
    (s e : Str) → IsDigits s → IsDigits e → both_numbers (some (s ++ (b'-' ∷ e))) ≡ range_of s e
unfolding both_numbers
both_numbers_of s e hs he = rw (span_digits_of s e hs) (second_number_of s e he)

pub parse_range-Reads :
    (header : Str) (range : R2Range) → (parse_range header ≡ some range) ↔ Reads header range
unfolding parse_range both_numbers
parse_range-Reads header range = (to, from)
  where
    to : parse_range header ≡ some range → Reads header range
    to e = elim (Option-cases (after_prefix (codes "bytes=") (trim header))) [
      | inl other ↦ absurd (ground arith)
      | inr (t, rest) ↦
          let (second, (dash, digits, asked)) =
            second_number-IsDigits (span_digits t).0 (span_digits t).1 range (ground arith) in
          record {
            first = (span_digits t).0;
            second = second;
            reads =
                after_prefix-split (codes "bytes=") (trim header) t rest
                ∙ ap (codes "bytes=" ++◌)
                    (sym (span_digits-append t) ∙ ap ((span_digits t).0 ++◌) dash);
            first_digits = span_digits-IsDigits t;
            second_digits = digits;
            means = asked;
          }
    ]

    from : Reads header range → parse_range header ≡ some range
    from a =
        ap both_numbers (
          ap (after_prefix (codes "bytes=")) a.reads
          ∙ after_prefix_of (codes "bytes=") (a.first ++ (b'-' ∷ a.second)))
        ∙ both_numbers_of a.first a.second a.first_digits a.second_digits
        ∙ a.means
