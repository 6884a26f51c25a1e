-- ===== src/Screen/Csi.antt =====
-- web/serialtap.js, dispatch: what a control sequence does, by its final character. The cases are
-- grouped as in the source's switch: cursor motion, erasing, editing, and the rest.
use bashtion_wasm.Base.{
  ℕ, zero, suc, ◌+◌, ◌-◌, ◌*◌, Bool, true, false, List, [], ◌∷◌, none, length, get_or, min, max,
  drop, ◌==◌, ltb, leb, within, ◌||◌, ◌&&◌, not, if◌then◌else◌, Str,
}
use bashtion_wasm.Regex.{digit}
use bashtion_wasm.Screen.Cells.{new_row, erase, erase_rest, open_gap, cut}
use bashtion_wasm.Screen.Display.{Display, buf, on_main, with_buf, line, set_cells, set_line}
use bashtion_wasm.Screen.Motion.{
  rotate_rows, scroll_up, scroll_down, save, restore, mode, mark_wrapped,
}

-- `parseInt(p, 10) || 0`, of what a parameter string can hold.
unfoldable pub parse_digits : ℕ → Str → ℕ
parse_digits acc [] = acc
parse_digits acc (c ∷ cs) =
    let more = parse_digits (acc * 10 + (c - b'0')) cs in if digit c then more else acc

-- `params.split(';').map(...)`: the first parameter and the others.
abbrev extend : ℕ → List Str → List Str
extend c [] = (c ∷ []) ∷ []
extend c (field ∷ fields) = (c ∷ field) ∷ fields

unfoldable pub split_fields : Str → List Str
split_fields [] = [] ∷ []
split_fields (c ∷ cs) = let rest = split_fields cs in if c == b';' then [] ∷ rest else extend c rest

unfoldable pub numbers : List Str → List ℕ
numbers [] = []
numbers (f ∷ fs) = parse_digits 0 f ∷ numbers fs

unfoldable pub parameters : Str → List ℕ
parameters s = numbers (split_fields s)

-- `/^[<=>?]/.test(params)`.
abbrev pub is_private : Str → Bool
is_private [] = false
is_private (c ∷ cs) = within b'<' b'?' c

abbrev pub tail_of : Str → Str
tail_of [] = []
tail_of (c ∷ cs) = cs

abbrev pub asks : Str → Bool
asks [] = false
asks (c ∷ cs) = c == b'?'

abbrev pub has : ℕ → List ℕ → Bool
has n [] = false
has n (p ∷ ps) = let rest = has n ps in if p == n then true else rest

abbrev pub is_none : Str → Bool
is_none [] = true
is_none (c ∷ cs) = false

-- `Math.min(x, cols - 1)`.
abbrev pub column : Display → ℕ
column d = min d.x (d.cols - 1)

abbrev pub to_row : Display → ℕ → ℕ
to_row d r = if d.origin then min d.bottom (d.top + r) else min (d.rows - 1) r

unfoldable pub up : ℕ → Display → Display
up k d = record d { x = column d; y = max (if leb d.top d.y then d.top else 0) (d.y - k) }

unfoldable pub down : ℕ → Display → Display
down k d = record d {
  x = column d;
  y = min (if leb d.y d.bottom then d.bottom else d.rows - 1) (d.y + k);
}

unfoldable pub to_column : ℕ → Display → Display
to_column c d = record d { x = min (d.cols - 1) c }

-- The cases A, B, e, C, a, D, E, F, G, `, d, H and f.
unfoldable pub motion : ℕ → ℕ → ℕ → ℕ → Display → Display
motion final n p0 p1 d =
    if final == b'A'
    then up n d
    else if final == b'B' || final == b'e'
    then down n d
    else if final == b'C' || final == b'a'
    then to_column (d.x + n) d
    else if final == b'D'
    then record d { x = column d - n }
    else if final == b'E'
    then to_column 0 (down n d)
    else if final == b'F'
    then to_column 0 (up n d)
    else if final == b'G' || final == b'`'
    then to_column (n - 1) d
    else if final == b'd'
    then record d { y = to_row d (n - 1); x = column d }
    else if final == b'H' || final == b'f'
    then to_column (max 1 p1 - 1) (record d { y = to_row d (n - 1) })
    else d

-- `main.lines.splice(0, main.base); main.base = 0; moves++`.
unfoldable pub drop_scrollback : Display → Display
drop_scrollback d =
    if on_main d
    then record d {
      main = record (buf d) { lines = drop (buf d).base (buf d).lines; base = 0 };
      moves = d.moves + 1;
    }
    else d

-- Rows `i` to `i + n` of the screen made new.
unfoldable pub renew_rows : ℕ → ℕ → Display → Display
renew_rows i zero d = d
renew_rows i (suc n) d = renew_rows (i + 1) n (set_line d i new_row)

unfoldable pub erase_line : ℕ → Display → Display
erase_line p0 d =
    let cells = (line d d.y).cells in
    if p0 == 0
    then set_cells d d.y (erase_rest cells (min d.x d.cols))
    else if p0 == 1
    then set_cells d d.y (erase cells 0 (column d + 1))
    else if p0 == 2
    then set_cells d d.y (erase_rest cells 0)
    else d

abbrev pub nothing_misplaced : ℕ → Display → Bool
nothing_misplaced p0 d = p0 == 2 || (p0 == 0 && d.x == 0 && d.y == 0)

-- The line and the marks of case J, before the other rows are erased.
unfoldable pub erase_here : ℕ → Display → Display
erase_here p0 d =
    let known = record d { unsure = if nothing_misplaced p0 d then false else d.unsure } in
    let unmarked = if p0 == 0 && known.x == 0 then mark_wrapped false known else known in
    if p0 == 2 then unmarked else erase_line p0 unmarked

-- Case J.
unfoldable pub erase_display : ℕ → Display → Display
erase_display p0 d =
    let here = erase_here p0 d in
    if p0 == 3
    then drop_scrollback d
    else if p0 == 0
    then renew_rows (d.y + 1) (d.rows - (d.y + 1)) here
    else if p0 == 1
    then renew_rows 0 d.y here
    else if p0 == 2
    then renew_rows 0 d.rows here
    else here

-- Case @.
unfoldable pub insert_blanks : ℕ → Display → Display
insert_blanks n d =
    let cells = (line d d.y).cells in
    let cx = column d in
    let opened = set_cells d d.y (open_gap (erase cells cx cx) cx (min n d.cols) d.cols) in
    record (if ltb cx (length cells) then opened else d) { x = cx }

-- Case P.
unfoldable pub delete_cells : ℕ → Display → Display
delete_cells n d =
    let cx = column d in
    let mended = erase (erase (line d d.y).cells cx cx) (cx + n) (cx + n) in
    record (set_cells d d.y (cut mended cx n)) { x = cx }

-- Case X.
unfoldable pub erase_cells : ℕ → Display → Display
erase_cells n d =
    let cx = column d in record (set_cells d d.y (erase (line d d.y).cells cx (cx + n))) { x = cx }

unfoldable pub move_rows : Bool → ℕ → Display → Display
move_rows lines_in zero d = d
move_rows lines_in (suc k) d = move_rows lines_in k (
    with_buf d
      (if lines_in then rotate_rows (buf d) d.bottom d.y else rotate_rows (buf d) d.y d.bottom))

-- Cases L and M.
unfoldable pub shift_rows : Bool → ℕ → Display → Display
shift_rows lines_in n d =
    if ltb d.y d.top || ltb d.bottom d.y
    then d
    else record (move_rows lines_in (min n (d.bottom - d.y + 1)) d) { x = 0 }

-- Case r.
unfoldable pub set_region : ℕ → ℕ → Display → Display
set_region p0 p1 d =
    let t = max 1 p0 - 1 in
    let b = min d.rows (if p1 == 0 then d.rows else p1) - 1 in
    if ltb t b then record d { top = t; bottom = b; x = 0; y = if d.origin then t else 0 } else d

-- The cases J, K, @, P, X, L and M.
unfoldable pub edit : ℕ → ℕ → ℕ → Display → Display
edit final n p0 d =
    if final == b'J'
    then erase_display p0 d
    else if final == b'K'
    then erase_line p0 d
    else if final == b'@'
    then insert_blanks n d
    else if final == b'P'
    then delete_cells n d
    else if final == b'X'
    then erase_cells n d
    else if final == b'L'
    then shift_rows true n d
    else if final == b'M'
    then shift_rows false n d
    else d

-- The cases S, T, r, s, u, h and l.
unfoldable pub setup : ℕ → ℕ → List ℕ → Str → Display → Display
setup final n ps params d =
    if final == b'S'
    then scroll_up (min n d.rows) d
    else if final == b'T'
    then (if length ps == 1 then scroll_down (min n d.rows) d else d)
    else if final == b'r'
    then set_region (get_or ps 0 0) (get_or ps 1 0) d
    else if final == b's'
    then (if is_none params then save d else d)
    else if final == b'u'
    then (if is_none params then restore d else d)
    else if final == b'h' || final == b'l'
    then record d { insert = if has 4 ps then final == b'h' else d.insert }
    else d

unfoldable pub modes : List ℕ → Bool → Display → Display
modes [] on d = d
modes (p ∷ ps) on d = modes ps on (mode p on d)

-- DECSTR.
unfoldable pub soft_reset : Display → Display
soft_reset d =
    with_buf
      (record d { top = 0; bottom = d.rows - 1; wrap = true; origin = false; insert = false })
      (record (buf d) { saved = none })

abbrev pub is_motion : ℕ → Bool
is_motion f = within b'A' b'H' f || f == b'`' || f == b'a' || f == b'd' || f == b'e' || f == b'f'

abbrev pub is_edit : ℕ → Bool
is_edit f = within b'J' b'M' f || f == b'@' || f == b'P' || f == b'X'

-- The switch of `dispatch`, for a sequence with neither a prefix nor an intermediate.
unfoldable pub plain : ℕ → Str → Display → Display
plain final params d =
    let ps = parameters params in
    let n = max 1 (get_or ps 0 0) in
    if is_motion final
    then motion final n (get_or ps 0 0) (get_or ps 1 0) d
    else if is_edit final
    then edit final n (get_or ps 0 0) d
    else setup final n ps params d

abbrev pub is_bang : Str → Bool
is_bang (c ∷ []) = c == b'!'
is_bang _ = false

unfoldable pub dispatch : ℕ → Str → Str → Display → Display
dispatch final params inter d =
    if is_bang inter && final == b'p'
    then soft_reset d
    else if not (is_none inter)
    then d
    else if asks params && (final == b'h' || final == b'l')
    then modes (parameters (tail_of params)) (final == b'h') d
    else if is_private params
    then d
    else plain final params d
