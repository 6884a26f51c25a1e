-- ===== src/Worker/Asks.antt =====
-- Which ranges the headers ask for, and that deploy/worker.js's parseRange reads them.
use bashtion_wasm.Base.{
  ℕ, ◌+◌, ◌-◌, ◌≤◌, ◌≡◌, ◌≢◌, ◌↔◌, refl, sym, ◌∙◌, ap, Bool, true, [], ◌∷◌, ◌++◌, none, some, codes,
  length, arith, Str, if◌then◌else◌, ◌==◌, not, ◌&&◌,
}
use mathlib.Core.Path.{ap₂}
use mathlib.Core.List.{append-nil}
use bashtion_wasm.Regex.{digit}
use bashtion_wasm.Whitespace.{trim}
use bashtion_wasm.Worker.Number.{ℤ, pos, whole, minus, add, subtract}
use bashtion_wasm.Worker.Http.{R2Range, suffix, offset, offset_length}
use bashtion_wasm.Worker.Range.{range_of, parse_range, number}
use bashtion_wasm.Worker.Decimal.{
  IsDigits, value, Numeral, value_exact, number_exact, Spans, Spans-minus, Spans-unique, span_exact,
}
use bashtion_wasm.Worker.Reads.{Reads, parse_range-Reads}

-- At most so many digits follow one another, `left` of them here.
unfoldable pub few_digits : ℕ → Str → Bool
few_digits left [] = true
few_digits left (c ∷ s) =
    let on = few_digits (left - 1) s in
    let again = few_digits 15 s in if digit c then not (left == 0) && on else again

few_in_front :
    (a s : Str) (left : ℕ) → IsDigits a → few_digits left (a ++ s) ≡ true → length a ≤ left
unfolding few_digits
few_in_front [] s left h e = omega arith
few_in_front (c ∷ a) s left h e =
    let (some_left, on) = taken left (few_digits (left - 1) (a ++ s)) _ h.0 e in
    omega (arith, few_in_front a s (left - 1) h.1 on)
  where
    taken :
        (left : ℕ) (on again : Bool)
        → digit c ≡ true
        → (if digit c then not (left == 0) && on else again) ≡ true
        → (left ≢ 0) × (on ≡ true)
    taken left on again d e = (λ none_left. ground arith, ground arith)

few_behind :
    (a s : Str) (left : ℕ)
    → IsDigits a
    → few_digits left (a ++ (b'-' ∷ s)) ≡ true
    → few_digits 15 s ≡ true
unfolding few_digits
few_behind [] s left h e = e
few_behind (c ∷ a) s left h e =
    few_behind a s (left - 1) h.1 (taken left (few_digits (left - 1) (a ++ (b'-' ∷ s))) _ h.0 e)
  where
    taken :
        (left : ℕ) (on again : Bool)
        → digit c ≡ true
        → (if digit c then not (left == 0) && on else again) ≡ true
        → on ≡ true
    taken left on again d e = ground arith

-- A header without more than 15 digits in a row, which JavaScript's numbers hold exactly.
abbrev pub FewDigits : Str → Type 0
FewDigits header = few_digits 15 (trim header) ≡ true

few_of :
    (header s e : Str)
    → FewDigits header
    → trim header ≡ codes "bytes=" ++ (s ++ (b'-' ∷ e))
    → IsDigits s
    → IsDigits e
    → (length s ≤ 15) × (length e ≤ 15)
unfolding few_digits
few_of header s e few split hs he =
    let both : few_digits 15 (s ++ (b'-' ∷ e)) ≡ true = sym (ap (few_digits 15) split) ∙ few in
    let behind : few_digits 15 (e ++ []) ≡ true =
      ap (few_digits 15) (append-nil e) ∙ few_behind s e 15 hs both in
    (few_in_front s (b'-' ∷ e) 15 hs both, few_in_front e [] 15 he behind)

-- What a header asks for: the last `n` bytes, those from the byte `m` on, or those from `m` to `n`, both
-- included, which is a length below zero where `n` is before `m` by more than one.
pub data Asks (header : Str) (range : R2Range) : Type 0 where
  last :
      (e : Str) (n : ℕ)
      → trim header ≡ codes "bytes=" ++ (b'-' ∷ e)
      → Numeral e n
      → range ≡ suffix (whole (pos n))
      → Asks header range
  onward :
      (s : Str) (m : ℕ)
      → trim header ≡ codes "bytes=" ++ (s ++ (b'-' ∷ []))
      → Numeral s m
      → range ≡ offset (whole (pos m))
      → Asks header range
  between :
      (s e : Str) (m n : ℕ) (l : ℤ)
      → trim header ≡ codes "bytes=" ++ (s ++ (b'-' ∷ e))
      → Numeral s m
      → Numeral e n
      → Spans m n l
      → range ≡ offset_length (whole (pos m)) (whole l)
      → Asks header range

given : {x y : R2Range} → some x ≡ some y → x ≡ y
given {x} {y} e = ap (λ o. elim o [ none ↦ x | some r ↦ r ]) e

written : (c : ℕ) (s : Str) → IsDigits (c ∷ s) → Numeral (c ∷ s) (value (c ∷ s))
written c s h = record { digits = h; filled = λ e. absurd (cc); reads = refl }

between_length :
    (s e : Str)
    → IsDigits s
    → IsDigits e
    → length s ≤ 15
    → length e ≤ 15
    → offset_length (number s) (add (subtract (number e) (number s)) (whole (pos 1)))
      ≡ offset_length (whole (pos (value s))) (whole (minus (value e + 1) (value s)))
between_length s e hs he short_s short_e =
    ap₂ (λ a b. offset_length a (add (subtract b a) (whole (pos 1)))) (number_exact s hs short_s)
      (number_exact e he short_e)
    ∙ ap (offset_length (whole (pos (value s))))
        (span_exact (value s) (value e) (value_exact s hs short_s) (value_exact e he short_e))

Asks-of_reading :
    (header s e : Str) (range : R2Range)
    → (length s ≤ 15) × (length e ≤ 15)
    → trim header ≡ codes "bytes=" ++ (s ++ (b'-' ∷ e))
    → IsDigits s
    → IsDigits e
    → range_of s e ≡ some range
    → Asks header range
unfolding range_of
Asks-of_reading header [] [] range short split hs he means = absurd (cc)
Asks-of_reading header [] (d ∷ e) range short split hs he means =
    last (d ∷ e) (value (d ∷ e)) split (written d e he)
      (sym (given means) ∙ ap suffix (number_exact (d ∷ e) he short.1))
Asks-of_reading header (c ∷ s) [] range short split hs he means =
    onward (c ∷ s) (value (c ∷ s)) split (written c s hs)
      (sym (given means) ∙ ap offset (number_exact (c ∷ s) hs short.0))
Asks-of_reading header (c ∷ s) (d ∷ e) range short split hs he means =
    between (c ∷ s) (d ∷ e) (value (c ∷ s)) (value (d ∷ e)) _ split (written c s hs)
      (written d e he) (Spans-minus _ _)
      (sym (given means) ∙ between_length (c ∷ s) (d ∷ e) hs he short.0 short.1)

Reads-of_Asks :
    (header : Str) (range : R2Range) → FewDigits header → Asks header range → Reads header range
unfolding range_of
Reads-of_Asks header range few (last [] n split num is) = absurd (num.filled refl)
Reads-of_Asks header range few (last (d ∷ e) n split num is) = record {
  first = [];
  second = d ∷ e;
  reads = split;
  first_digits = tt;
  second_digits = num.digits;
  means =
      ap (λ x. some (suffix x))
        (number_exact (d ∷ e) num.digits (few_of header [] (d ∷ e) few split tt num.digits).1)
      ∙ ap (λ (k : ℕ). some (suffix (whole (pos k)))) num.reads
      ∙ ap some (sym is);
}
Reads-of_Asks header range few (onward [] m split num is) = absurd (num.filled refl)
Reads-of_Asks header range few (onward (c ∷ s) m split num is) = record {
  first = c ∷ s;
  second = [];
  reads = split;
  first_digits = num.digits;
  second_digits = tt;
  means =
      ap (λ x. some (offset x))
        (number_exact (c ∷ s) num.digits (few_of header (c ∷ s) [] few split num.digits tt).0)
      ∙ ap (λ (k : ℕ). some (offset (whole (pos k)))) num.reads
      ∙ ap some (sym is);
}
Reads-of_Asks header range few (between [] e m n l split a b sp is) = absurd (a.filled refl)
Reads-of_Asks header range few (between (c ∷ s) [] m n l split a b sp is) = absurd (b.filled refl)
Reads-of_Asks header range few (between (c ∷ s) (d ∷ e) m n l split a b sp is) =
    let short = few_of header (c ∷ s) (d ∷ e) few split a.digits b.digits in
    record {
      first = c ∷ s;
      second = d ∷ e;
      reads = split;
      first_digits = a.digits;
      second_digits = b.digits;
      means =
          ap some (between_length (c ∷ s) (d ∷ e) a.digits b.digits short.0 short.1)
          ∙ ap₂ (λ (x y : ℕ). some (offset_length (whole (pos x)) (whole (minus (y + 1) x))))
              a.reads b.reads
          ∙ ap (λ (k : ℤ). some (offset_length (whole (pos m)) (whole k))) (Spans-unique m n l sp)
          ∙ ap some (sym is);
    }

-- Of a header without more than 15 digits in a row, parseRange reads a range exactly where it asks for one,
-- and it is the one it asks for: the last `n` bytes, those from `m` on, or the length that takes the byte
-- `m` to the byte `n`, which is below zero where `n` is before `m` by more than one. Every other such
-- header is refused.
pub parse_range-Asks :
    (header : Str) (range : R2Range)
    → FewDigits header
    → (parse_range header ≡ some range) ↔ Asks header range
parse_range-Asks header range few = (
  λ h.
      let r = (parse_range-Reads header range).0 h in
      Asks-of_reading header r.first r.second range
        (few_of header r.first r.second few r.reads r.first_digits r.second_digits) r.reads
        r.first_digits r.second_digits r.means,
  λ asks. (parse_range-Reads header range).1 (Reads-of_Asks header range few asks),
)
