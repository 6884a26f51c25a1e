-- ===== src/Screen/Cells.antt =====
-- web/serialtap.js, newRow, text, blank and erase: the cells of one row. An array of cells is a
-- list; a cell past its end is `undefined`, as an unset one is.
pub mod Whole
use bashtion_wasm.Base.{
  ℕ, zero, suc, ◌+◌, ◌-◌, Bool, true, false, not, ◌&&◌, List, [], ◌∷◌, ◌++◌, Option, none, some,
  length, get_or, set, take, drop, replicate, ltb, leb, if◌then◌else◌, Str,
}
use bashtion_wasm.Regex.{Re, one, space, test}

-- `undefined`, `''` for the right half of a wide character, or a character with what combines with it.
pub data Cell : Type 0 where
  unset right_half : Cell
  glyph : Str → Cell

pub record Row : Type 0 where
  pub cells : List Cell
  pub wrapped : Bool

abbrev pub new_row : Row
new_row = record { cells = []; wrapped = false }

abbrev pub cell_text : Cell → Str
cell_text unset = b' ' ∷ []
cell_text right_half = []
cell_text (glyph s) = s

abbrev pub is_right_half : Cell → Bool
is_right_half right_half = true
is_right_half _ = false

-- `n` cells from `i` on.
unfoldable pub text_run : List Cell → ℕ → ℕ → Str
text_run cells i zero = []
text_run cells i (suc n) = cell_text (get_or cells i unset) ++ text_run cells (i + 1) n

unfoldable pub text : List Cell → ℕ → ℕ → Str
text cells from to = text_run cells from (to - from)

-- `/\S/`.
abbrev pub ink : Re
ink = one (λ c. not (space c))

unfoldable pub blank : List Cell → Bool
blank cells = not (test ink (text cells 0 (length cells)))

-- `for (let i = from; i < to; i++) cells[i] = undefined`, for `n` cells that are all there.
unfoldable pub clear_cells : List Cell → ℕ → ℕ → List Cell
clear_cells [] from n = []
clear_cells (c ∷ cs) (suc from) n = c ∷ clear_cells cs from n
clear_cells (c ∷ cs) zero zero = c ∷ cs
clear_cells (c ∷ cs) zero (suc n) = unset ∷ clear_cells cs zero n

abbrev pub unset_if : Bool → List Cell → ℕ → List Cell
unset_if b cells i = if b then set cells i unset else cells

-- The two writes that keep a wide character from being cut at an edge.
unfoldable pub mend_left : List Cell → ℕ → List Cell
mend_left cells zero = cells
mend_left cells (suc i) = unset_if (is_right_half (get_or cells (suc i) unset)) cells i

unfoldable pub mend_right : List Cell → ℕ → List Cell
mend_right cells to = unset_if (is_right_half (get_or cells to unset)) cells to

-- `erase(cells, from, to)`; cutting the array at `from` changes nothing where it is no longer.
unfoldable pub erase : List Cell → ℕ → ℕ → List Cell
erase cells from to =
    let mended = mend_right (mend_left cells from) to in
    if leb (length mended) to then take from mended else clear_cells mended from (to - from)

-- `erase(cells, from, Infinity)`.
unfoldable pub erase_rest : List Cell → ℕ → List Cell
erase_rest cells from = take from (mend_left cells from)

-- `cells[i] = c`, which lengthens a shorter array.
unfoldable pub put : List Cell → ℕ → Cell → List Cell
put [] zero v = v ∷ []
put [] (suc i) v = unset ∷ put [] i v
put (c ∷ cs) zero v = v ∷ cs
put (c ∷ cs) (suc i) v = c ∷ put cs i v

-- `cells.splice(at, 0, ...new Array(n))`, then no more than `cols` cells.
unfoldable pub open_gap : List Cell → ℕ → ℕ → ℕ → List Cell
open_gap cells at n cols = take cols (take at cells ++ (replicate n unset ++ drop at cells))

-- `cells.splice(at, n)`.
unfoldable pub cut : List Cell → ℕ → ℕ → List Cell
cut cells at n = take at cells ++ drop (at + n) cells
