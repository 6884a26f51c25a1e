-- ===== src/Screen/Fit.antt =====
-- web/serialtap.js, fit: the display follows the terminal's geometry as xterm.js resizes.
use bashtion_wasm.Base.{
  ℕ, zero, suc, ◌+◌, ◌-◌, Bool, true, false, [], ◌∷◌, ◌++◌, Option, none, some, length, min, pop,
  ◌==◌, ltb, ◌&&◌, if◌then◌else◌,
}
use bashtion_wasm.Screen.Cells.{new_row}
use bashtion_wasm.Screen.Display.{Buffer, Geometry, Display, size}

-- A buffer and the cursor's row, which only the active buffer moves.
pub record Sized : Type 0 where
  pub held : Buffer
  pub y : ℕ

-- The screen lines that a buffer has.
abbrev pub height : Buffer → ℕ
height b = length b.lines - b.base

-- One round of the first `while`.
unfoldable pub grow_row : Bool → Sized → Sized
grow_row active s =
    let b = s.held in
    if active && (ltb 0 b.base && s.y == height b - 1)
    then record { held = record b { base = b.base - 1 }; y = s.y + 1 }
    else record s { held = record b { lines = b.lines ++ (new_row ∷ []) } }

-- One round of the second.
unfoldable pub shrink_row : Bool → Sized → Sized
shrink_row active s =
    let b = s.held in
    if active && ltb s.y (height b - 1)
    then record s { held = record b { lines = pop b.lines } }
    else record { held = record b { base = b.base + 1 }; y = if active then s.y - 1 else s.y }

unfoldable pub grow : Bool → ℕ → Sized → Sized
grow active zero s = s
grow active (suc n) s = grow active n (grow_row active s)

unfoldable pub shrink : Bool → ℕ → Sized → Sized
shrink active zero s = s
shrink active (suc n) s = shrink active n (shrink_row active s)

-- Both loops: a round of either changes the height by one, so each has as many rounds as the
-- height is short of, or above, the rows wanted.
unfoldable pub resize : Bool → ℕ → Sized → Sized
resize active rows s =
    let grown = grow active (rows - height s.held) s in
    shrink active (height grown.held - rows) grown

abbrev pub sized : Buffer → ℕ → Sized
sized b y = record { held = b; y = y }

-- The two buffers in the order of the source, the main one first.
unfoldable pub fit_buffers : ℕ → Display → Display
fit_buffers rows d = elim d.alt [
  | none ↦ let s = resize true rows (sized d.main d.y) in record d { main = s.held; y = s.y }
  | some b ↦
      let s = resize true rows (sized b d.y) in
      record d { main = (resize false rows (sized d.main d.y)).held; alt = some s.held; y = s.y }
]

unfoldable pub adopt : Geometry → Display → Display
adopt g d =
    let f = fit_buffers g.rows d in
    record f {
      cols = g.cols;
      rows = g.rows;
      moves = d.moves + 1;
      top = 0;
      bottom = g.rows - 1;
      x = min d.x g.cols;
      y = min f.y (g.rows - 1);
    }

unfoldable pub fit : Option Geometry → Display → Display
fit g d = if (size g).cols == d.cols && (size g).rows == d.rows then d else adopt (size g) d
