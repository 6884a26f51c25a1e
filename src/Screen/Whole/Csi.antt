-- ===== src/Screen/Whole/Csi.antt =====
-- Every control sequence keeps every row whole, whatever its parameters.
use bashtion_wasm.Base.{
  if_keep, ℕ, zero, suc, ◌+◌, ◌-◌, Bool, true, false, List, [], ◌∷◌, length, min, arith, not, ltb,
  ◌==◌, ◌||◌, ◌&&◌, Str, if◌then◌else◌,
}
use bashtion_wasm.Screen.Cells.{Cell, new_row, erase}
use bashtion_wasm.Screen.Cells.Whole.{
  Whole, erase-Whole, erase_rest-Whole, cut-Whole, open_gap-Whole, erased_edge,
}
use bashtion_wasm.Screen.Display.{Display, line, set_cells, buf, on_main}
use bashtion_wasm.Screen.Csi.{
  up, down, to_column, motion, drop_scrollback, renew_rows, erase_line, erase_here, erase_display,
  insert_blanks, delete_cells, erase_cells, move_rows, shift_rows, set_region, edit, setup, modes,
  soft_reset, plain, dispatch, nothing_misplaced, column, is_none, is_motion, is_edit, parameters,
  asks, tail_of, is_private, is_bang,
}
use bashtion_wasm.Screen.Whole.Rows.{
  IsWhole, WholeBuffer, All-drop, nil-Whole, buf-Whole, with_buf-IsWhole, line-Whole,
  set_line-IsWhole, set_cells-IsWhole, rotate_rows-Whole,
}
use bashtion_wasm.Screen.Whole.Motion.{
  scroll_up-IsWhole, scroll_down-IsWhole, mark_wrapped-IsWhole, save-IsWhole, restore-IsWhole,
  mode-IsWhole,
}

motion-IsWhole : (final n p0 p1 : ℕ) {d : Display} → IsWhole d → IsWhole (motion final n p0 p1 d)
unfolding motion up down to_column
motion-IsWhole final n p0 p1 {d} h = ground arith

drop_scrollback-IsWhole : {d : Display} → IsWhole d → IsWhole (drop_scrollback d)
unfolding drop_scrollback
drop_scrollback-IsWhole {d} h =
    if_keep IsWhole (on_main d)
      (record {
        main_whole = All-drop (buf d).base (buf d).lines (buf-Whole h);
        alt_whole = h.alt_whole;
      })
      h

renew_rows-IsWhole : (n i : ℕ) {d : Display} → IsWhole d → IsWhole (renew_rows i n d)
unfolding renew_rows
renew_rows-IsWhole zero i h = h
renew_rows-IsWhole (suc n) i h =
    renew_rows-IsWhole n (i + 1) (set_line-IsWhole i new_row h nil-Whole)

erase_line-IsWhole : (p0 : ℕ) {d : Display} → IsWhole d → IsWhole (erase_line p0 d)
unfolding erase_line
erase_line-IsWhole p0 {d} h =
    let w = line-Whole d.y h in
    if_keep IsWhole (p0 == 0) (set_cells-IsWhole d.y _ h (erase_rest-Whole _ w)) (
      if_keep IsWhole (p0 == 1)
        (set_cells-IsWhole d.y _ h (erase-Whole 0 (column d + 1) (omega arith) w))
        (if_keep IsWhole (p0 == 2) (set_cells-IsWhole d.y _ h (erase_rest-Whole 0 w)) h))

erase_here-IsWhole : (p0 : ℕ) {d : Display} → IsWhole d → IsWhole (erase_here p0 d)
unfolding erase_here
erase_here-IsWhole p0 {d} h =
    let known : IsWhole (record d { unsure = if nothing_misplaced p0 d then false else d.unsure }) =
      record { main_whole = h.main_whole; alt_whole = h.alt_whole } in
    let unmarked = if_keep IsWhole (p0 == 0 && d.x == 0) (mark_wrapped-IsWhole false known) known in
    if_keep IsWhole (p0 == 2) unmarked (erase_line-IsWhole p0 unmarked)

erase_display-IsWhole : (p0 : ℕ) {d : Display} → IsWhole d → IsWhole (erase_display p0 d)
unfolding erase_display
erase_display-IsWhole p0 {d} h =
    let here = erase_here-IsWhole p0 h in
    if_keep IsWhole (p0 == 3) (drop_scrollback-IsWhole h) (
      if_keep IsWhole (p0 == 0) (renew_rows-IsWhole _ _ here) (
        if_keep IsWhole (p0 == 1) (renew_rows-IsWhole _ _ here)
          (if_keep IsWhole (p0 == 2) (renew_rows-IsWhole _ _ here) here)))

set_cells_to-IsWhole :
    (x : ℕ) (cs : List Cell) {d : Display}
    → IsWhole d
    → Whole cs
    → IsWhole (record (set_cells d d.y cs) { x = x })
set_cells_to-IsWhole x cs {d} h w =
    let s = set_cells-IsWhole d.y cs h w in
    record { main_whole = s.main_whole; alt_whole = s.alt_whole }

insert_blanks-IsWhole : (n : ℕ) {d : Display} → IsWhole d → IsWhole (insert_blanks n d)
unfolding insert_blanks
insert_blanks-IsWhole n {d} h =
    let cs = (line d d.y).cells in
    let cx = column d in
    let mended = erase-Whole cx cx (omega arith) (line-Whole d.y h) in
    let opened =
      set_cells-IsWhole d.y _ h
        (open_gap-Whole cx (min n d.cols) d.cols (erased_edge cs cx) mended) in
    let kept = if_keep IsWhole (ltb cx (length cs)) opened h in
    record { main_whole = kept.main_whole; alt_whole = kept.alt_whole }

delete_cells-IsWhole : (n : ℕ) {d : Display} → IsWhole d → IsWhole (delete_cells n d)
unfolding delete_cells
delete_cells-IsWhole n {d} h =
    let cx = column d in
    let left = erase-Whole cx cx (omega arith) (line-Whole d.y h) in
    let both = erase-Whole (cx + n) (cx + n) (omega arith) left in
    set_cells_to-IsWhole cx _ h
      (cut-Whole cx n (erased_edge (erase (line d d.y).cells cx cx) (cx + n)) both)

erase_cells-IsWhole : (n : ℕ) {d : Display} → IsWhole d → IsWhole (erase_cells n d)
unfolding erase_cells
erase_cells-IsWhole n {d} h =
    set_cells_to-IsWhole _ _ h
      (erase-Whole (column d) (column d + n) (omega arith) (line-Whole d.y h))

move_rows-IsWhole :
    (lines_in : Bool) (k : ℕ) {d : Display} → IsWhole d → IsWhole (move_rows lines_in k d)
unfolding move_rows
move_rows-IsWhole lines_in zero h = h
move_rows-IsWhole lines_in (suc k) {d} h = move_rows-IsWhole lines_in k (
    with_buf-IsWhole _ h (
      if_keep WholeBuffer lines_in (rotate_rows-Whole (buf d) d.bottom d.y (buf-Whole h))
        (rotate_rows-Whole (buf d) d.y d.bottom (buf-Whole h))))

shift_rows-IsWhole :
    (lines_in : Bool) (n : ℕ) {d : Display} → IsWhole d → IsWhole (shift_rows lines_in n d)
unfolding shift_rows
shift_rows-IsWhole lines_in n {d} h =
    let m = move_rows-IsWhole lines_in (min n (d.bottom - d.y + 1)) h in
    if_keep IsWhole (ltb d.y d.top || ltb d.bottom d.y) h
      (record { main_whole = m.main_whole; alt_whole = m.alt_whole })

set_region-IsWhole : (p0 p1 : ℕ) {d : Display} → IsWhole d → IsWhole (set_region p0 p1 d)
unfolding set_region
set_region-IsWhole p0 p1 {d} h = ground arith

edit-IsWhole : (final n p0 : ℕ) {d : Display} → IsWhole d → IsWhole (edit final n p0 d)
unfolding edit
edit-IsWhole final n p0 {d} h = if_keep IsWhole (final == b'J') (erase_display-IsWhole p0 h) (
    if_keep IsWhole (final == b'K') (erase_line-IsWhole p0 h) (
      if_keep IsWhole (final == b'@') (insert_blanks-IsWhole n h) (
        if_keep IsWhole (final == b'P') (delete_cells-IsWhole n h) (
          if_keep IsWhole (final == b'X') (erase_cells-IsWhole n h) (
            if_keep IsWhole (final == b'L') (shift_rows-IsWhole true n h)
              (if_keep IsWhole (final == b'M') (shift_rows-IsWhole false n h) h))))))

setup-IsWhole :
    (final n : ℕ) (ps : List ℕ) (params : Str) {d : Display}
    → IsWhole d
    → IsWhole (setup final n ps params d)
unfolding setup
setup-IsWhole final n ps params {d} h = if_keep IsWhole (final == b'S') (scroll_up-IsWhole _ h) (
    if_keep IsWhole (final == b'T') (if_keep IsWhole (length ps == 1) (scroll_down-IsWhole _ h) h) (
      if_keep IsWhole (final == b'r') (set_region-IsWhole _ _ h) (
        if_keep IsWhole (final == b's') (if_keep IsWhole (is_none params) (save-IsWhole h) h) (
          if_keep IsWhole (final == b'u') (if_keep IsWhole (is_none params) (restore-IsWhole h) h) (
            if_keep IsWhole (final == b'h' || final == b'l')
              (record { main_whole = h.main_whole; alt_whole = h.alt_whole }) h)))))

modes-IsWhole : (ps : List ℕ) (on : Bool) {d : Display} → IsWhole d → IsWhole (modes ps on d)
unfolding modes
modes-IsWhole [] on h = h
modes-IsWhole (p ∷ ps) on h = modes-IsWhole ps on (mode-IsWhole p on h)

soft_reset-IsWhole : {d : Display} → IsWhole d → IsWhole (soft_reset d)
unfolding soft_reset
soft_reset-IsWhole {d} h =
    with_buf-IsWhole _ (record { main_whole = h.main_whole; alt_whole = h.alt_whole }) (buf-Whole h)

plain-IsWhole :
    (final : ℕ) (params : Str) {d : Display} → IsWhole d → IsWhole (plain final params d)
unfolding plain
plain-IsWhole final params {d} h =
    if_keep IsWhole (is_motion final) (motion-IsWhole final _ _ _ h) (
      if_keep IsWhole (is_edit final) (edit-IsWhole final _ _ h)
        (setup-IsWhole final _ (parameters params) params h))

pub dispatch-IsWhole :
    (final : ℕ) (params inter : Str) {d : Display}
    → IsWhole d
    → IsWhole (dispatch final params inter d)
unfolding dispatch
dispatch-IsWhole final params inter {d} h =
    if_keep IsWhole (is_bang inter && final == b'p') (soft_reset-IsWhole h) (
      if_keep IsWhole (not (is_none inter)) h (
        if_keep IsWhole (asks params && (final == b'h' || final == b'l'))
          (modes-IsWhole (parameters (tail_of params)) (final == b'h') h)
          (if_keep IsWhole (is_private params) h (plain-IsWhole final params h))))
