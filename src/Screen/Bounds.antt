-- ===== src/Screen/Bounds.antt =====
-- The bounds that every index of web/serialtap.js's makeScreen relies on.
pub mod Motion
pub mod Fit
pub mod Csi
pub mod Parser
use bashtion_wasm.Base.{
  ℕ, ◌+◌, ◌≤◌, ◌<◌, ◌≡◌, refl, sym, ◌∙◌, Bool, true, false, List, Option, none, some, length, set,
  length-set, length-replicate, arith, if◌then◌else◌,
}
use bashtion_wasm.Screen.Cells.{Row, Cell, new_row}
use bashtion_wasm.Screen.Display.{
  Buffer, Display, Geometry, buffer, buf, with_buf, set_line, set_cells, dimension, size, reset,
  declared, new,
}

-- A buffer holds exactly `rows` screen lines from `base` on.
abbrev pub Holds : ℕ → Buffer → Type 0
Holds rows b = length b.lines ≡ b.base + rows

abbrev pub AltHolds : ℕ → Option Buffer → Type 0
AltHolds rows none = Unit
AltHolds rows (some b) = Holds rows b

pub record InBounds (shape : Geometry) (d : Display) : Type 0 where
  pub cols_is : d.cols ≡ shape.cols
  pub rows_is : d.rows ≡ shape.rows
  pub cols_min : 2 ≤ d.cols
  pub x_le : d.x ≤ d.cols
  pub y_lt : d.y < d.rows
  pub region : d.top ≤ d.bottom
  pub bottom_lt : d.bottom < d.rows
  pub main_holds : Holds d.rows d.main
  pub alt_holds : AltHolds d.rows d.alt

pub buffer-Holds : (rows keep : ℕ) → Holds rows (buffer rows keep)
unfolding buffer
buffer-Holds rows keep = omega (arith, length-replicate {0} rows)

pub dimension-min : (low default v : ℕ) → low ≤ dimension low default v
unfolding dimension
dimension-min low default v = ground arith

pub size_min : (g : Option Geometry) → (2 ≤ (size g).cols) × (1 ≤ (size g).rows)
unfolding size
size_min none = omega arith
size_min (some g) = (dimension-min 2 80 g.cols, dimension-min 1 24 g.rows)

-- Writing a row moves neither the margin nor the cursor.
pub set_line-cols : (d : Display) (i : ℕ) (r : Row) → (set_line d i r).cols ≡ d.cols
unfolding set_line with_buf
set_line-cols d i r = ground arith

pub set_line-x : (d : Display) (i : ℕ) (r : Row) → (set_line d i r).x ≡ d.x
unfolding set_line with_buf
set_line-x d i r = ground arith

pub set_cells-cols : (d : Display) (i : ℕ) (cs : List Cell) → (set_cells d i cs).cols ≡ d.cols
unfolding set_cells
set_cells-cols d i cs = set_line-cols d i _

module _ {shape : Geometry} where
  pub buf-Holds : {d : Display} → InBounds shape d → Holds d.rows (buf d)
  buf-Holds h = ground arith

  pub with_buf-InBounds :
      {d : Display} (b : Buffer) → InBounds shape d → Holds d.rows b → InBounds shape (with_buf d b)
  unfolding with_buf
  with_buf-InBounds b h k = ground arith

  pub set_line-InBounds :
      {d : Display} (i : ℕ) (r : Row) → InBounds shape d → InBounds shape (set_line d i r)
  unfolding set_line
  set_line-InBounds {d} i r h =
      with_buf-InBounds _ h (length-set (buf d).lines ((buf d).base + i) r ∙ buf-Holds h)

  pub set_cells-InBounds :
      {d : Display} (i : ℕ) (cs : List Cell) → InBounds shape d → InBounds shape (set_cells d i cs)
  unfolding set_cells
  set_cells-InBounds i cs h = set_line-InBounds i _ h

  -- A terminal reset keeps the geometry, and puts everything else in bounds whatever it was.
  pub reset-InBounds :
      (d : Display)
      → d.cols ≡ shape.cols
      → d.rows ≡ shape.rows
      → 2 ≤ d.cols
      → 1 ≤ d.rows
      → InBounds shape (reset d)
  unfolding reset buffer
  reset-InBounds d ec er c r = ground (arith, length-replicate {0} d.rows new_row)

pub new-InBounds : (g : Option Geometry) → InBounds (size g) (new g)
unfolding new declared
new-InBounds g = reset-InBounds (declared (size g)) refl refl (size_min g).0 (size_min g).1
