-- ===== src/Screen/Cells/Whole.antt =====
-- No right half of a wide character stands without the character on its left: what the edge writes
-- of web/serialtap.js's erase are for, and that the other operations on a row keep it.
use bashtion_wasm.Base.{
  ℕ, zero, suc, ◌+◌, ◌-◌, ◌≤◌, ◌≡◌, refl, ap, ◌∙◌, Bool, true, false, List, [], ◌∷◌, ◌++◌, length,
  get_or, set, take, drop, replicate, arith, ltb, leb, ◌==◌, ◌&&◌, if◌then◌else◌,
}
use bashtion_wasm.Screen.Cells.{
  Cell, unset, glyph, is_right_half, clear_cells, mend_left, mend_right, erase, erase_rest, put,
  open_gap, cut,
}

abbrev pub at : List Cell → ℕ → Cell
at cs i = get_or cs i unset

abbrev pub is_glyph : Cell → Bool
is_glyph (glyph s) = true
is_glyph _ = false

abbrev pub glyph_before : List Cell → ℕ → Bool
glyph_before cs zero = false
glyph_before cs (suc i) = is_glyph (at cs i)

-- A right half has a character before it.
pub record Whole (cs : List Cell) : Type 0 where
  pub owned : (i : ℕ) → is_right_half (at cs i) ≡ true → glyph_before cs i ≡ true

-- What each operation leaves in a cell.
at-set : (cs : List Cell) (k i : ℕ) → at (set cs k unset) i ≡ (if k == i then unset else at cs i)
at-set [] k i = ground arith
at-set (c ∷ cs) zero zero = ground arith
at-set (c ∷ cs) zero (suc i) = ground arith
at-set (c ∷ cs) (suc k) zero = ground arith
at-set (c ∷ cs) (suc k) (suc i) = ground (arith, at-set cs k i)

at-take : (n : ℕ) (cs : List Cell) (i : ℕ) → at (take n cs) i ≡ (if ltb i n then at cs i else unset)
at-take zero cs i = ground arith
at-take (suc n) [] i = ground arith
at-take (suc n) (c ∷ cs) zero = ground arith
at-take (suc n) (c ∷ cs) (suc i) = ground (arith, at-take n cs i)

at-drop : (n : ℕ) (cs : List Cell) (i : ℕ) → at (drop n cs) i ≡ at cs (n + i)
at-drop zero cs i = ap (at cs) (omega arith)
at-drop (suc n) [] i = refl
at-drop (suc n) (c ∷ cs) i = at-drop n cs i ∙ ap (at (c ∷ cs)) {x = suc (n + i)} (omega arith)

pub at-put :
    (cs : List Cell) (k i : ℕ) (v : Cell) → at (put cs k v) i ≡ (if k == i then v else at cs i)
unfolding put
at-put [] zero zero v = ground arith
at-put [] zero (suc i) v = ground arith
at-put [] (suc k) zero v = ground arith
at-put [] (suc k) (suc i) v = ground (arith, at-put [] k i v)
at-put (c ∷ cs) zero zero v = ground arith
at-put (c ∷ cs) zero (suc i) v = ground arith
at-put (c ∷ cs) (suc k) zero v = ground arith
at-put (c ∷ cs) (suc k) (suc i) v = ground (arith, at-put cs k i v)

at-clear_cells :
    (cs : List Cell) (from n i : ℕ)
    → at (clear_cells cs from n) i ≡ (if leb from i && ltb i (from + n) then unset else at cs i)
unfolding clear_cells
at-clear_cells [] from n i = ground arith
at-clear_cells (c ∷ cs) (suc from) n zero = ground arith
at-clear_cells (c ∷ cs) (suc from) n (suc i) = ground (arith, at-clear_cells cs from n i)
at-clear_cells (c ∷ cs) zero zero i = ground arith
at-clear_cells (c ∷ cs) zero (suc n) zero = ground arith
at-clear_cells (c ∷ cs) zero (suc n) (suc i) = ground (arith, at-clear_cells cs zero n i)

at-cut :
    (k m : ℕ) (cs : List Cell) (i : ℕ)
    → k ≤ m
    → at (take k cs ++ drop m cs) i ≡ (if ltb i k then at cs i else at cs (i + (m - k)))
at-cut zero m cs i h =
    ground (arith, at-drop m cs i, ap (at cs) {x = m + i} {y = i + (m - 0)} (omega arith))
at-cut (suc k) zero cs i h = absurd (omega arith)
at-cut (suc k) (suc m) [] i h = ground arith
at-cut (suc k) (suc m) (c ∷ cs) zero h = ground arith
at-cut (suc k) (suc m) (c ∷ cs) (suc i) h = ground (
  arith,
  at-cut k m cs i,
  ap (at (c ∷ cs)) {x = suc (i + (m - k))} {y = suc i + (suc m - suc k)} (omega arith),
)

at-pad :
    (n : ℕ) (cs : List Cell) (i : ℕ)
    → at (replicate n unset ++ cs) i ≡ (if ltb i n then unset else at cs (i - n))
at-pad zero cs i = ground (arith, ap (at cs) {x = i} {y = i - 0} (omega arith))
at-pad (suc n) cs zero = ground arith
at-pad (suc n) cs (suc i) =
    ground (arith, at-pad n cs i, ap (at cs) {x = i - n} {y = suc i - suc n} (omega arith))

at_shifted : (c : Cell) (cs : List Cell) (n i : ℕ) → n ≤ i → at (c ∷ cs) (suc i - n) ≡ at cs (i - n)
at_shifted c cs n i h = ap (at (c ∷ cs)) {y = suc (i - n)} (omega arith)

at-gap :
    (k n : ℕ) (cs : List Cell) (i : ℕ)
    → at (take k cs ++ (replicate n unset ++ drop k cs)) i
      ≡ (if ltb i k then at cs i else if ltb i (k + n) then unset else at cs (i - n))
at-gap zero n cs i = ground (arith, at-pad n cs i)
at-gap (suc k) n [] i = ground (arith, at-pad n [] i)
at-gap (suc k) n (c ∷ cs) zero = ground arith
at-gap (suc k) n (c ∷ cs) (suc i) = ground (arith, at-gap k n cs i, at_shifted c cs n i)

-- A cell behind the end is unset.
at-past : (cs : List Cell) (i : ℕ) → length cs ≤ i → at cs i ≡ unset
at-past [] i h = refl
at-past (c ∷ cs) zero h = absurd (omega arith)
at-past (c ∷ cs) (suc i) h = at-past cs i (omega arith)

at-mend_left :
    (cs : List Cell) (from i : ℕ)
    → at (mend_left cs from) i
      ≡ (if (suc i == from) && is_right_half (at cs from) then unset else at cs i)
unfolding mend_left
at-mend_left cs zero i = ground arith
at-mend_left cs (suc from) i = ground (arith, at-set cs from i)

at-mend_right :
    (cs : List Cell) (to i : ℕ)
    → at (mend_right cs to) i ≡ (if (to == i) && is_right_half (at cs to) then unset else at cs i)
unfolding mend_right
at-mend_right cs to i = ground (arith, at-set cs to i)

-- A cell after an erasure, from `from` up to `to`: unset inside it; unset at `to` where a right half
-- stood there; unset before `from` where its right half was erased; and else what it was.
abbrev pub erased_at : List Cell → ℕ → ℕ → ℕ → Cell
erased_at cs from to i =
    if leb from i && ltb i to
    then unset
    else if (to == i) && is_right_half (at cs to)
    then unset
    else if (suc i == from) && is_right_half (at cs from)
    then unset
    else at cs i

mended : List Cell → ℕ → ℕ → List Cell
mended cs from to = mend_right (mend_left cs from) to

at-mended :
    (cs : List Cell) (from to i : ℕ)
    → from ≤ to
    → at (mended cs from to) i ≡ (
        if (to == i) && is_right_half (at cs to)
        then unset
        else if (suc i == from) && is_right_half (at cs from)
        then unset
        else at cs i)
unfolding mended
at-mended cs from to i h =
    ground (
      arith,
      at-mend_right (mend_left cs from) to i,
      at-mend_left cs from i,
      at-mend_left cs from to,
    )

at-wiped :
    (cs : List Cell) (from to i : ℕ)
    → from ≤ to
    → at (if leb (length cs) to then take from cs else clear_cells cs from (to - from)) i
      ≡ (if leb from i && ltb i to then unset else at cs i)
at-wiped cs from to i h =
    ground (arith, at-take from cs i, at-clear_cells cs from (to - from) i, at-past cs i)

pub at-erase :
    (cs : List Cell) (from to i : ℕ) → from ≤ to → at (erase cs from to) i ≡ erased_at cs from to i
unfolding erase mended
at-erase cs from to i h =
    at-wiped (mended cs from to) from to i h
    ∙ ap (λ c. if leb from i && ltb i to then unset else c) (at-mended cs from to i h)

at-erase_rest :
    (cs : List Cell) (from i : ℕ)
    → at (erase_rest cs from) i ≡ (
        if leb from i
        then unset
        else if (suc i == from) && is_right_half (at cs from)
        then unset
        else at cs i)
unfolding erase_rest
at-erase_rest cs from i = ground (arith, at-take from (mend_left cs from) i, at-mend_left cs from i)

-- A right half that an operation leaves has its character still before it.
erase_owned :
    (cs : List Cell) (from to i : ℕ)
    → Whole cs
    → from ≤ to
    → is_right_half (at (erase cs from to) i) ≡ true
    → glyph_before (erase cs from to) i ≡ true
erase_owned cs from to zero w h r = ground (arith, at-erase cs from to 0, w.owned 0)
erase_owned cs from to (suc i) w h r =
    ground (arith, at-erase cs from to i, at-erase cs from to (suc i), w.owned (suc i))

erase_rest_owned :
    (cs : List Cell) (from i : ℕ)
    → Whole cs
    → is_right_half (at (erase_rest cs from) i) ≡ true
    → glyph_before (erase_rest cs from) i ≡ true
erase_rest_owned cs from zero w r = ground (arith, at-erase_rest cs from 0, w.owned 0)
erase_rest_owned cs from (suc i) w r =
    ground (arith, at-erase_rest cs from i, at-erase_rest cs from (suc i), w.owned (suc i))

at_cong : (cs : List Cell) (i j : ℕ) → i ≡ j → at cs i ≡ at cs j
at_cong cs i j e = ap (at cs) e

cut_owned :
    (cs : List Cell) (k n i : ℕ)
    → Whole cs
    → is_right_half (at cs (k + n)) ≡ false
    → is_right_half (at (cut cs k n) i) ≡ true
    → glyph_before (cut cs k n) i ≡ true
unfolding cut
cut_owned cs k n zero w e r =
    ground (arith, at-cut k (k + n) cs 0, w.owned 0, ap (at cs) {x = 0 + (k + n - k)} {y = k + n})
cut_owned cs k n (suc i) w e r = ground (
  arith,
  at-cut k (k + n) cs i,
  at-cut k (k + n) cs (suc i),
  w.owned (suc i),
  w.owned (suc (i + n)),
  at_cong cs (i + (k + n - k)) (i + n),
  at_cong cs (suc i + (k + n - k)) (suc (i + n)),
  at_cong cs (suc i + (k + n - k)) (k + n),
)

gap : List Cell → ℕ → ℕ → List Cell
gap cs k n = take k cs ++ (replicate n unset ++ drop k cs)

gap_owned :
    (cs : List Cell) (k n i : ℕ)
    → Whole cs
    → is_right_half (at cs k) ≡ false
    → is_right_half (at (gap cs k n) i) ≡ true
    → glyph_before (gap cs k n) i ≡ true
unfolding gap
gap_owned cs k n zero w e r = ground (arith, at-gap k n cs 0, w.owned 0, at_cong cs (0 - n) k)
gap_owned cs k n (suc i) w e r = ground (
  arith,
  at-gap k n cs i,
  at-gap k n cs (suc i),
  w.owned (suc i),
  w.owned (suc (i - n)),
  at_cong cs (suc i - n) (suc (i - n)),
  at_cong cs (suc i - n) k,
)

take_owned :
    (cs : List Cell) (n i : ℕ)
    → Whole cs
    → is_right_half (at (take n cs) i) ≡ true
    → glyph_before (take n cs) i ≡ true
take_owned cs n zero w r = ground (arith, at-take n cs 0, w.owned 0)
take_owned cs n (suc i) w r = ground (arith, at-take n cs i, at-take n cs (suc i), w.owned (suc i))

-- The operations of web/serialtap.js on a row.
pub erase-Whole : (from to : ℕ) {cs : List Cell} → from ≤ to → Whole cs → Whole (erase cs from to)
erase-Whole from to {cs} h w = record { owned = λ i. erase_owned cs from to i w h }

pub erase_rest-Whole : (from : ℕ) {cs : List Cell} → Whole cs → Whole (erase_rest cs from)
erase_rest-Whole from {cs} w = record { owned = λ i. erase_rest_owned cs from i w }

-- No right half is left at a column where nothing is erased: its other edge is.
pub erased_edge : (cs : List Cell) (k : ℕ) → is_right_half (at (erase cs k k) k) ≡ false
erased_edge cs k = ground (arith, at-erase cs k k k)

pub cut-Whole :
    (k n : ℕ) {cs : List Cell}
    → is_right_half (at cs (k + n)) ≡ false
    → Whole cs
    → Whole (cut cs k n)
cut-Whole k n {cs} e w = record { owned = λ i. cut_owned cs k n i w e }

pub open_gap-Whole :
    (k n cols : ℕ) {cs : List Cell}
    → is_right_half (at cs k) ≡ false
    → Whole cs
    → Whole (open_gap cs k n cols)
unfolding open_gap gap
open_gap-Whole k n cols {cs} e w =
    let opened : Whole (gap cs k n) = record { owned = λ i. gap_owned cs k n i w e } in
    record { owned = λ i. take_owned (gap cs k n) cols i opened }
