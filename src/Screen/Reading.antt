-- ===== src/Screen/Reading.antt =====
-- web/serialtap.js: cursorLine, lines and lastLine, what the page reads off the screen.
use bashtion_wasm.Base.{
  ℕ, zero, suc, ◌+◌, ◌-◌, Bool, true, false, List, [], ◌∷◌, ◌++◌, length, get_or, take, drop, map,
  max, ◌==◌, ◌&&◌, not, if◌then◌else◌, Str,
}
use bashtion_wasm.Screen.Cells.{Row, new_row, text, blank}
use bashtion_wasm.Screen.Display.{Display, buf, on_main}

pub record CursorLine : Type 0 where
  pub before : Str
  pub after : Str
  pub below : Bool
  pub sure : Bool

abbrev pub row_text : Row → Str
row_text r = text r.cells 0 (length r.cells)

abbrev pub row_at : List Row → ℕ → Row
row_at lines i = get_or lines i new_row

-- `while (s > 0 && L[s].wrapped) s--`.
unfoldable pub first_row : List Row → ℕ → ℕ
first_row lines zero = zero
first_row lines (suc s) =
    let up = first_row lines s in if (row_at lines (suc s)).wrapped then up else suc s

-- How many rows at the head of a list are wrapped.
unfoldable pub wrapped_run : List Row → ℕ
wrapped_run [] = 0
wrapped_run (r ∷ rs) = let more = wrapped_run rs in if r.wrapped then suc more else 0

-- `while (e + 1 < L.length && L[e + 1].wrapped) e++`.
unfoldable pub last_row : List Row → ℕ → ℕ
last_row lines e = e + wrapped_run (drop (e + 1) lines)

unfoldable pub rows_text : List Row → Str
rows_text [] = []
rows_text (r ∷ rs) = row_text r ++ rows_text rs

-- The rows `i` to `j`, the latter left out.
abbrev pub rows_between : List Row → ℕ → ℕ → List Row
rows_between lines i j = take (j - i) (drop i lines)

unfoldable pub any_ink : List Row → Bool
any_ink [] = false
any_ink (r ∷ rs) = let more = any_ink rs in if blank r.cells then more else true

unfoldable pub cursor_line : Display → CursorLine
cursor_line d =
    let lines = (buf d).lines in
    let at = (buf d).base + d.y in
    let s = first_row lines at in
    let e = last_row lines at in
    let cells = (row_at lines at).cells in
    record {
      before = rows_text (rows_between lines s at) ++ text cells 0 d.x;
      after = text cells d.x (length cells) ++ rows_text (rows_between lines (at + 1) (e + 1));
      below = any_ink (rows_between lines (e + 1) ((buf d).base + d.rows));
      sure = on_main d && (not d.unsure && not (row_at lines s).wrapped);
    }

abbrev trim_onto : ℕ → Str → Str
trim_onto c [] = if c == b' ' then [] else c ∷ []
trim_onto c (d ∷ ds) = c ∷ d ∷ ds

-- `t.replace(/ +$/, '')`.
unfoldable pub trim_end : Str → Str
trim_end [] = []
trim_end (c ∷ cs) = trim_onto c (trim_end cs)

-- How many rows of a list are needed to hold the last one that is not blank.
unfoldable pub inked_length : List Row → ℕ
inked_length [] = 0
inked_length (r ∷ rs) =
    let more = inked_length rs in if more == 0 && blank r.cells then 0 else suc more

-- The rows joined into lines; `line` is the one being built.
unfoldable pub join_rows : Str → List Row → List Str
join_rows line [] = line ∷ []
join_rows line (r ∷ rs) = elim r.wrapped [
  | true ↦ join_rows (line ++ row_text r) rs
  | false ↦ line ∷ join_rows (row_text r) rs
]

abbrev pub join_lines : List Row → List Str
join_lines [] = []
join_lines (r ∷ rs) = join_rows (row_text r) rs

-- Every line held, down to the cursor or the last row that is not blank.
unfoldable pub lines : Display → List Str
lines d =
    let held = (buf d).lines in
    let last = max ((buf d).base + d.y + 1) (inked_length held) in
    map trim_end (join_lines (take last held))

unfoldable pub last_line : Display → Str
last_line d = trim_end ((cursor_line d).before ++ (cursor_line d).after)
