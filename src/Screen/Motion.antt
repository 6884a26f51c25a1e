-- ===== src/Screen/Motion.antt =====
-- web/serialtap.js: scrollUp, scrollDown, lineFeed, reverseIndex, print, control, save, restore
-- and mode.
use bashtion_wasm.Base.{
  ℕ, zero, suc, ◌+◌, ◌-◌, ◌*◌, ◌/◌, Bool, true, false, List, [], ◌∷◌, ◌++◌, none, some, length,
  get_or, min, insert_at, remove_at, drop, ◌==◌, ltb, leb, ◌||◌, ◌&&◌, if◌then◌else◌,
}
use bashtion_wasm.Screen.Cells.{Cell, unset, glyph, new_row, is_right_half, erase, put, open_gap}
use bashtion_wasm.Screen.Display.{
  Saved, Buffer, Display, buffer, buf, on_main, with_buf, line, set_line, set_cells,
}

-- `if (buf === main) moves++`.
abbrev pub count_move : Display → Display
count_move d = record d { moves = if on_main d then d.moves + 1 else d.moves }

-- A row pushed into the scrollback, which is cut to `keep` once it has 64 more.
unfoldable pub push_row : Buffer → ℕ → Buffer
push_row b bottom =
    let lines = insert_at b.lines (b.base + bottom + 1) new_row in
    if ltb (b.keep + 64) (b.base + 1)
    then record b { lines = drop (b.base + 1 - b.keep) lines; base = b.keep }
    else record b { lines = lines; base = b.base + 1 }

-- A row taken out at one place of the screen, and a new one put in at another.
unfoldable pub rotate_rows : Buffer → ℕ → ℕ → Buffer
rotate_rows b out into = record b {
  lines = insert_at (remove_at b.lines (b.base + out)) (b.base + into) new_row;
}

-- One round of `scrollUp`.
unfoldable pub scroll_up_row : Display → Display
scroll_up_row d =
    if d.top == 0
    then with_buf (count_move d) (push_row (buf d) d.bottom)
    else with_buf d (rotate_rows (buf d) d.top d.bottom)

unfoldable pub scroll_up : ℕ → Display → Display
scroll_up zero d = d
scroll_up (suc n) d = scroll_up n (scroll_up_row d)

unfoldable pub scroll_down_row : Display → Display
scroll_down_row d = with_buf d (rotate_rows (buf d) d.bottom d.top)

unfoldable pub scroll_down : ℕ → Display → Display
scroll_down zero d = d
scroll_down (suc n) d = scroll_down n (scroll_down_row d)

-- `if (x >= cols) x = cols - 1`.
abbrev pub off_margin : Display → Display
off_margin d = record d { x = if leb d.cols d.x then d.cols - 1 else d.x }

-- `if (y === bottom) scrollUp(1); else if (y < rows - 1) y++`.
unfoldable pub next_row : Display → Display
next_row d =
    if d.y == d.bottom
    then scroll_up_row d
    else if ltb d.y (d.rows - 1)
    then record d { y = d.y + 1 }
    else d

-- A fresh line makes the cursor's row known again.
abbrev pub sure_at_margin : Display → Display
sure_at_margin d = record d { unsure = if d.x == 0 then false else d.unsure }

unfoldable pub line_feed : Display → Display
line_feed d = next_row (sure_at_margin (off_margin d))

unfoldable pub up_from_top : Display → Display
up_from_top d =
    if d.y == d.top then scroll_down_row d else if ltb 0 d.y then record d { y = d.y - 1 } else d

unfoldable pub reverse_index : Display → Display
reverse_index d = up_from_top (off_margin d)

-- `if (cells[i]) cells[i] += ch`: an unset cell and a right half are falsy.
unfoldable pub join : List Cell → ℕ → ℕ → List Cell
join [] i ch = []
join (glyph s ∷ cs) zero ch = glyph (s ++ (ch ∷ [])) ∷ cs
join (c ∷ cs) zero ch = c ∷ cs
join (c ∷ cs) (suc i) ch = c ∷ join cs i ch

-- The cell before column `k + 1`, one further left where that is a right half.
abbrev pub owner : List Cell → ℕ → ℕ
owner cells k = if ltb 0 k && is_right_half (get_or cells k unset) then k - 1 else k

unfoldable pub join_before : List Cell → ℕ → ℕ → List Cell
join_before cells zero ch = cells
join_before cells (suc k) ch = join cells (owner cells k) ch

unfoldable pub combine : ℕ → Display → Display
combine ch d = set_cells d d.y (join_before (line d d.y).cells (min d.x d.cols) ch)

-- `line(y).wrapped = on`.
unfoldable pub mark_wrapped : Bool → Display → Display
mark_wrapped on d = set_line d d.y (record (line d d.y) { wrapped = on })

-- The deferred wrap, or a wide character that no longer fits.
unfoldable pub make_room : ℕ → Display → Display
make_room w d =
    let wrapped = mark_wrapped true (record (next_row d) { x = 0 }) in
    if ltb d.cols (d.x + w) then (if d.wrap then wrapped else record d { x = d.cols - w }) else d

-- Insert mode moves the rest of the row right.
abbrev pub shifted : List Cell → ℕ → ℕ → ℕ → Bool → List Cell
shifted cells x w cols insert =
    if insert && ltb x (length cells) then open_gap (erase cells x x) x w cols else cells

-- The cells of a row once a character of `w` columns is written at `x`.
unfoldable pub write_cells : ℕ → ℕ → ℕ → List Cell → List Cell
write_cells ch w x cells =
    let written = put (erase cells x (x + w)) x (glyph (ch ∷ [])) in
    if w == 2 then put written (x + 1) Cell.right_half else written

unfoldable pub place_char : ℕ → ℕ → Display → Display
place_char ch w d =
    record (set_cells d d.y
      (write_cells ch w d.x (shifted (line d d.y).cells d.x w d.cols d.insert))) { x = d.x + w }

unfoldable pub print : ℕ → ℕ → Display → Display
print ch w d = if w == 0 then combine ch d else place_char ch w (make_room w d)

unfoldable pub backspace : Display → Display
backspace d = record d { x = min d.x (d.cols - 1) - 1 }

unfoldable pub tab : Display → Display
tab d = record d { x = min (d.cols - 1) ((min d.x (d.cols - 1) / 8 + 1) * 8) }

unfoldable pub carriage_return : Display → Display
carriage_return d = record d { x = 0 }

unfoldable pub control : ℕ → Display → Display
control c d =
    if c == 0x08
    then backspace d
    else if c == 0x09
    then tab d
    else if c == 0x0a || c == 0x0b || c == 0x0c || c == 0x84
    then line_feed d
    else if c == 0x0d
    then carriage_return d
    else if c == 0x85
    then line_feed (carriage_return d)
    else if c == 0x8d
    then reverse_index d
    else d

unfoldable pub save : Display → Display
save d = with_buf d (record (buf d) {
  saved = some (record { x = d.x; y = d.y; origin = d.origin; moves = d.moves });
})

-- `buf.saved || { x: 0, y: 0, origin: false, moves }`.
abbrev pub saved_cursor : Display → Saved
saved_cursor d = elim (buf d).saved [
  | some s ↦ s
  | none ↦ record { x = 0; y = 0; origin = false; moves = d.moves }
]

unfoldable pub restore : Display → Display
restore d =
    let s = saved_cursor d in
    record d {
      unsure = if s.moves == d.moves then d.unsure else true;
      x = min s.x (d.cols - 1);
      y = min s.y (d.rows - 1);
      origin = s.origin;
    }

unfoldable pub enter_alt : Display → Display
enter_alt d = if on_main d then record d { alt = some (buffer d.rows 0) } else d

unfoldable pub set_origin : Bool → Display → Display
set_origin on d = record d { origin = on; x = 0; y = if on then d.top else 0 }

unfoldable pub mode : ℕ → Bool → Display → Display
mode p on d =
    let main_again = record d { alt = none } in
    if p == 7
    then record d { wrap = on }
    else if p == 6
    then set_origin on d
    else if p == 47 || p == 1047 || p == 1049
    then (if on
        then enter_alt (if p == 1049 then save d else d)
        else (if p == 1049 then restore main_again else main_again))
    else d
