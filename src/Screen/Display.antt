-- ===== src/Screen/Display.antt =====
-- web/serialtap.js, the state of makeScreen: geometry, buffers, cursor, scroll region and modes.
use bashtion_wasm.Base.{
  ℕ, ◌+◌, ◌-◌, ◌%◌, ◌^◌, Bool, true, false, List, Option, none, some, replicate, get_or, set, max,
  ◌==◌, leb, if◌then◌else◌,
}
use bashtion_wasm.Screen.Cells.{Cell, Row, new_row}

-- What DECSC and CSI s keep.
pub record Saved : Type 0 where
  pub x : ℕ
  pub y : ℕ
  pub origin : Bool
  pub moves : ℕ

-- The lines before `base` are the scrollback, and `rows` screen lines follow it.
pub record Buffer : Type 0 where
  pub lines : List Row
  pub base : ℕ
  pub keep : ℕ
  pub saved : Option Saved

-- `buf` of the source is `alt` where there is one, and else `main`: `buf === main` is `alt ≡ none`.
pub record Display : Type 0 where
  pub cols : ℕ
  pub rows : ℕ
  pub main : Buffer
  pub alt : Option Buffer
  pub x : ℕ
  pub y : ℕ
  pub top : ℕ
  pub bottom : ℕ
  pub wrap : Bool
  pub origin : Bool
  pub insert : Bool
  pub moves : ℕ
  pub unsure : Bool

-- `{ cols, rows }` of the terminal widget.
pub record Geometry : Type 0 where
  pub cols : ℕ
  pub rows : ℕ

abbrev pub scrollback : ℕ
scrollback = 1000

-- `Math.max(low, v | 0 || default)`: `| 0` reads the low 32 bits as a signed number.
unfoldable pub dimension : ℕ → ℕ → ℕ → ℕ
dimension low default v =
    let w = v % 2 ^ 32 in
    if w == 0 then max low default else if leb (2 ^ 31) w then low else max low w

-- `none` is a page that has no terminal yet.
unfoldable pub size : Option Geometry → Geometry
size none = record { cols = 80; rows = 24 }
size (some g) = record { cols = dimension 2 80 g.cols; rows = dimension 1 24 g.rows }

unfoldable pub buffer : ℕ → ℕ → Buffer
buffer rows keep = record { lines = replicate rows new_row; base = 0; keep = keep; saved = none }

abbrev pub buf : Display → Buffer
buf d = elim d.alt [ none ↦ d.main | some b ↦ b ]

abbrev pub on_main : Display → Bool
on_main d = elim d.alt [ none ↦ true | some b ↦ false ]

-- The active buffer written back.
unfoldable pub with_buf : Display → Buffer → Display
with_buf d b = elim d.alt [ none ↦ record d { main = b } | some _ ↦ record d { alt = some b } ]

-- `line(i)`. The row is there whenever `i < rows`.
abbrev pub line : Display → ℕ → Row
line d i = get_or (buf d).lines ((buf d).base + i) new_row

unfoldable pub set_line : Display → ℕ → Row → Display
set_line d i r = let b = buf d in with_buf d (record b { lines = set b.lines (b.base + i) r })

unfoldable pub set_cells : Display → ℕ → List Cell → Display
set_cells d i cs = set_line d i (record (line d i) { cells = cs })

-- `reset()`, for a display that has its geometry.
unfoldable pub reset : Display → Display
reset d = record d {
  main = buffer d.rows scrollback;
  alt = none;
  x = 0;
  y = 0;
  top = 0;
  bottom = d.rows - 1;
  wrap = true;
  origin = false;
  insert = false;
  unsure = false;
}

-- The variables as makeScreen declares them, once `size()` has been read.
unfoldable pub declared : Geometry → Display
declared g = record {
  cols = g.cols;
  rows = g.rows;
  main = buffer g.rows scrollback;
  alt = none;
  x = 0;
  y = 0;
  top = 0;
  bottom = 0;
  wrap = false;
  origin = false;
  insert = false;
  moves = 0;
  unsure = false;
}

-- The state behind the closing lines of makeScreen.
unfoldable pub new : Option Geometry → Display
new g = reset (declared (size g))
