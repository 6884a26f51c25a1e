-- ===== src/Window.antt =====
-- web/termfit.js: how many cells fit the window. The sizes of a cell are fractions of a pixel, above zero
-- where they are used; a width that the paddings take up is zero, which the minimum replaces all the same.
pub mod Grid
use bashtion_wasm.Base.{
  ℕ, zero, suc, ◌+◌, ◌-◌, ◌*◌, ◌/◌, max, Bool, true, false, not, ◌&&◌, ◌||◌, Option, none, some,
  ltb, ◌==◌, if◌then◌else◌,
}
use bashtion_wasm.Screen.Display.{Geometry}

abbrev pub min_cols : ℕ
min_cols = 20

abbrev pub min_rows : ℕ
min_rows = 10

-- `over / under` pixels.
pub record Pixels : Type 0 where
  pub over : ℕ
  pub under : ℕ

pub record Cell : Type 0 where
  pub w : Pixels
  pub h : Pixels

-- `term._core._renderService.dimensions` in its two shapes: the actual cell, and the one of `css`.
pub record Dimensions : Type 0 where
  pub actual : Option Cell
  pub css : Option Cell

-- Both sides are numbers above zero.
abbrev pub above_zero : Cell → Bool
above_zero c = ltb 0 c.w.over && ltb 0 c.h.over

abbrev pub if_above : Option Cell → Option Cell → Option Cell
if_above none other = other
if_above (some c) other = if above_zero c then some c else other

-- `cell(term)`; without the private fields there is none.
unfoldable pub cell : Option Dimensions → Option Cell
cell none = none
cell (some d) = if_above d.actual (if_above d.css none)

-- The element, its style and the scroll bar: `none` is an element that is not there.
pub record Box : Type 0 where
  pub width : ℕ
  pub height : ℕ
  pub left : ℕ
  pub right : ℕ
  pub top : ℕ
  pub bottom : ℕ
  pub scrollbar : ℕ

abbrev pub inner_width : Box → ℕ
inner_width b = b.width - b.left - b.right - b.scrollbar

abbrev pub inner_height : Box → ℕ
inner_height b = b.height - b.top - b.bottom

-- `Math.floor(n / p)`, of exact fractions: where the quotient of doubles rounds up to a whole number that
-- is not reached, the source has one cell more. It is finite, as the sides are above zero.
abbrev pub cells_in : ℕ → Pixels → ℕ
cells_in n p = n * p.under / p.over

unfoldable pub measure_cells : Option Cell → Option Box → Option Geometry
measure_cells none b = none
measure_cells (some c) none = none
measure_cells (some c) (some b) = some (record {
  cols = max min_cols (cells_in (inner_width b) c.w);
  rows = max min_rows (cells_in (inner_height b) c.h);
})

-- `measure(term, el, win)`.
unfoldable pub measure : Option Dimensions → Option Box → Option Geometry
measure d b = measure_cells (cell d) b

-- The terminal's geometry, and what `fit` returns.
pub record Fitted : Type 0 where
  pub term : Geometry
  pub changed : Option Geometry

abbrev pub adopt_geometry : Geometry → Option Geometry → Fitted
adopt_geometry term none = record { term = term; changed = none }
adopt_geometry term (some g) =
    if g.cols == term.cols && g.rows == term.rows
    then record { term = term; changed = none }
    else record { term = g; changed = some g }

-- `fit(term, el, win)`.
unfoldable pub fit_window : Option Dimensions → Option Box → Geometry → Fitted
fit_window d b term = adopt_geometry term (measure d b)
