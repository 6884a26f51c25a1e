-- ===== src/Screen/Typing.antt =====
-- The text of a row, and of the cursor's line, behind a character written at the row's end.
pub mod Echo
use mathlib.Core.List.{append-nil, append_assoc}
use mathlib.Core.Path.{ap₂}
use native.Mathlib.Nat.{add-zero}
use bashtion_wasm.Base.{
  ℕ, zero, suc, ◌+◌, ◌-◌, ◌≤◌, ◌<◌, ◌≡◌, ◌≢◌, refl, sym, ap, ◌∙◌, Bool, true, false, List, [], ◌∷◌,
  ◌++◌, Option, none, some, All, length, get_or, set, take, drop, arith, ltb, leb, ◌==◌, Str,
  if◌then◌else◌,
}
use bashtion_wasm.Screen.Width.{width}
use bashtion_wasm.Screen.Cells.{
  Cell, unset, glyph, Row, new_row, cell_text, text_run, text, mend_left, mend_right, erase, put,
}
use bashtion_wasm.Screen.Display.{
  Buffer, Display, Geometry, buf, line, with_buf, set_line, set_cells,
}
use bashtion_wasm.Screen.Motion.{make_room, write_cells, place_char, print}
use bashtion_wasm.Screen.Parser.{Screen, ground_state, ground_char, step_in, step, run}
use bashtion_wasm.Screen.Reading.{row_at, row_text, first_row, rows_text, rows_between, cursor_line}

get_or-past {ℓ} : {A : Type ℓ} (xs : List A) (i : ℕ) (d : A) → length xs ≤ i → get_or xs i d ≡ d
get_or-past [] i d h = refl
get_or-past (x ∷ xs) zero d h = absurd (omega arith)
get_or-past (x ∷ xs) (suc i) d h = get_or-past xs i d (omega arith)

take-past {ℓ} : {A : Type ℓ} (xs : List A) (i : ℕ) → length xs ≤ i → take i xs ≡ xs
take-past [] zero h = refl
take-past [] (suc i) h = refl
take-past (x ∷ xs) zero h = absurd (omega arith)
take-past (x ∷ xs) (suc i) h = ap (x ∷◌) (take-past xs i (omega arith))

get_or-put_self : (cs : List Cell) (i : ℕ) (v : Cell) → get_or (put cs i v) i unset ≡ v
unfolding put
get_or-put_self [] zero v = refl
get_or-put_self [] (suc i) v = get_or-put_self [] i v
get_or-put_self (c ∷ cs) zero v = refl
get_or-put_self (c ∷ cs) (suc i) v = get_or-put_self cs i v

get_or-put_lt :
    (cs : List Cell) (i j : ℕ) (v : Cell) → j < i → get_or (put cs i v) j unset ≡ get_or cs j unset
unfolding put
get_or-put_lt cs zero j v h = absurd (omega arith)
get_or-put_lt [] (suc i) zero v h = refl
get_or-put_lt [] (suc i) (suc j) v h = get_or-put_lt [] i j v (omega arith)
get_or-put_lt (c ∷ cs) (suc i) zero v h = refl
get_or-put_lt (c ∷ cs) (suc i) (suc j) v h = get_or-put_lt cs i j v (omega arith)

pub length-put : (cs : List Cell) (i : ℕ) (v : Cell) → length cs ≤ i → length (put cs i v) ≡ i + 1
unfolding put
length-put [] zero v h = omega arith
length-put [] (suc i) v h = omega (arith, length-put [] i v (omega arith))
length-put (c ∷ cs) zero v h = absurd (omega arith)
length-put (c ∷ cs) (suc i) v h = omega (arith, length-put cs i v (omega arith))

mend_left_past : (cells : List Cell) (x : ℕ) → length cells ≤ x → mend_left cells x ≡ cells
unfolding mend_left
mend_left_past cells zero h = refl
mend_left_past cells (suc x) h = rw (get_or-past cells (suc x) unset h)

erase_past : (cells : List Cell) (x : ℕ) → length cells ≤ x → erase cells x (x + 1) ≡ cells
unfolding erase mend_right
erase_past cells x h = ground (
  arith,
  mend_left_past cells x h,
  get_or-past cells (x + 1) unset (omega arith),
  take-past cells x h,
)

-- A character of one column at the end of a row.
pub write_cells_end :
    (c x : ℕ) (cells : List Cell)
    → length cells ≤ x
    → write_cells c 1 x cells ≡ put cells x (glyph (c ∷ []))
unfolding write_cells
write_cells_end c x cells h = ap (λ t. put t x (glyph (c ∷ []))) (erase_past cells x h)

text_run-put :
    (n i : ℕ) (cs : List Cell) (x : ℕ) (v : Cell)
    → i + n ≤ x
    → text_run (put cs x v) i n ≡ text_run cs i n
unfolding text_run
text_run-put zero i cs x v h = refl
text_run-put (suc n) i cs x v h =
    rw (get_or-put_lt cs x i v (omega arith), text_run-put n (i + 1) cs x v (omega arith))

text_run-suc :
    (n i : ℕ) (cs : List Cell)
    → text_run cs i (suc n) ≡ text_run cs i n ++ cell_text (get_or cs (i + n) unset)
unfolding text_run
text_run-suc zero i cs = rw (add-zero, append-nil)
text_run-suc (suc n) i cs =
    ap (cell_text (get_or cs i unset) ++◌) (text_run-suc n (i + 1) cs)
    ∙ sym (append_assoc (cell_text (get_or cs i unset)) _ _)
    ∙ ap (λ k. text_run cs i (suc n) ++ cell_text (get_or cs k unset)) {x = i + 1 + n} (omega arith)

text-put :
    (cs : List Cell) (x c : ℕ)
    → text (put cs x (glyph (c ∷ []))) 0 (x + 1) ≡ text cs 0 x ++ (c ∷ [])
unfolding text
text-put cs x c =
    let cs' = put cs x (glyph (c ∷ [])) in
    ap (text_run cs' 0) {x = x + 1 - 0} {y = suc x} (omega arith)
    ∙ text_run-suc x 0 cs'
    ∙ ap₂ (◌++◌) (text_run-put x 0 cs x _ (omega arith) ∙ ap (text_run cs 0) (omega arith)) (
        ap cell_text (
          ap (λ k. get_or cs' k unset) {x = 0 + x} (omega arith)
          ∙ get_or-put_self cs x (glyph (c ∷ []))))

-- A row rewritten with its mark kept moves no line's first row.
first_row-cong :
    (ls ms : List Row) (n : ℕ)
    → ((k : ℕ) → (row_at ls k).wrapped ≡ (row_at ms k).wrapped)
    → first_row ls n ≡ first_row ms n
unfolding first_row
first_row-cong ls ms zero h = refl
first_row-cong ls ms (suc n) h = rw (h (suc n), first_row-cong ls ms n h)

wrapped-set :
    (ls : List Row) (n : ℕ) (r : Row)
    → r.wrapped ≡ (row_at ls n).wrapped
    → (k : ℕ) → (row_at (set ls n r) k).wrapped ≡ (row_at ls k).wrapped
wrapped-set [] n r e k = refl
wrapped-set (l ∷ ls) zero r e zero = e
wrapped-set (l ∷ ls) zero r e (suc k) = refl
wrapped-set (l ∷ ls) (suc n) r e zero = refl
wrapped-set (l ∷ ls) (suc n) r e (suc k) = wrapped-set ls n r e k

take-set : (k n : ℕ) (ls : List Row) (r : Row) → k ≤ n → take k (set ls n r) ≡ take k ls
take-set zero n ls r h = refl
take-set (suc k) n [] r h = refl
take-set (suc k) zero (l ∷ ls) r h = absurd (omega arith)
take-set (suc k) (suc n) (l ∷ ls) r h = ap (l ∷◌) (take-set k n ls r (omega arith))

take-drop-set :
    (s k n : ℕ) (ls : List Row) (r : Row)
    → s + k ≤ n
    → take k (drop s (set ls n r)) ≡ take k (drop s ls)
take-drop-set zero k n ls r h = take-set k n ls r (omega arith)
take-drop-set (suc s) k n [] r h = refl
take-drop-set (suc s) k zero (l ∷ ls) r h = absurd (omega arith)
take-drop-set (suc s) k (suc n) (l ∷ ls) r h = take-drop-set s k n ls r (omega arith)

first_row-le : (ls : List Row) (n : ℕ) → first_row ls n ≤ n
unfolding first_row
first_row-le ls zero = omega arith
first_row-le ls (suc n) = ground (arith, first_row-le ls n)

-- The rows above the cursor's, on its line, when its row is rewritten.
above-set :
    (ls : List Row) (n : ℕ) (r : Row)
    → r.wrapped ≡ (row_at ls n).wrapped
    → rows_between (set ls n r) (first_row (set ls n r) n) n ≡ rows_between ls (first_row ls n) n
above-set ls n r e =
    rw (first_row-cong (set ls n r) ls n (wrapped-set ls n r e)) (
      take-drop-set (first_row ls n) (n - first_row ls n) n ls r (omega (arith, first_row-le ls n)))

pub row_at-set_self : (ls : List Row) (n : ℕ) (r : Row) → n < length ls → row_at (set ls n r) n ≡ r
row_at-set_self [] n r h = absurd (omega arith)
row_at-set_self (l ∷ ls) zero r h = refl
row_at-set_self (l ∷ ls) (suc n) r h = row_at-set_self ls n r (omega arith)

-- The text of the cursor's line up to the cursor.
unfoldable pub line_before : List Row → ℕ → ℕ → Str
line_before ls n x = rows_text (rows_between ls (first_row ls n) n) ++ text (row_at ls n).cells 0 x

pub line_before_lem :
    (d : Display) → (cursor_line d).before ≡ line_before (buf d).lines ((buf d).base + d.y) d.x
unfolding line_before cursor_line
line_before_lem d = refl

pub line_before-set :
    (ls : List Row) (n x c : ℕ)
    → n < length ls
    → line_before
        (set ls n (record (row_at ls n) { cells = put (row_at ls n).cells x (glyph (c ∷ [])) }))
        n
        (x + 1)
      ≡ line_before ls n x ++ (c ∷ [])
unfolding line_before
line_before-set ls n x c h =
    let r = record (row_at ls n) { cells = put (row_at ls n).cells x (glyph (c ∷ [])) } in
    ap₂ (λ a (q : Row). rows_text a ++ text q.cells 0 (x + 1)) (above-set ls n r refl)
      (row_at-set_self ls n r h)
    ∙ ap (rows_text (rows_between ls (first_row ls n) n) ++◌) (text-put (row_at ls n).cells x c)
    ∙ sym (append_assoc (rows_text (rows_between ls (first_row ls n) n)) _ _)
