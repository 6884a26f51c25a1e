-- ===== src/Screen/Bounds/Csi.antt =====
-- Every control sequence leaves the display in bounds, whatever its parameters.
use bashtion_wasm.Base.{
  if_keep, ℕ, zero, suc, ◌+◌, ◌≤◌, Bool, true, false, List, [], ◌∷◌, length, length-drop, arith,
  not, Bool-cases, inl, inr, ltb, ◌==◌, ◌||◌, ◌&&◌, Str, if◌then◌else◌,
}
use bashtion_wasm.Screen.Cells.{Cell, new_row}
use bashtion_wasm.Screen.Display.{Geometry, Display, line, set_cells, buf}
use bashtion_wasm.Screen.Csi.{
  up, down, to_column, motion, drop_scrollback, renew_rows, erase_line, erase_here, erase_display,
  insert_blanks, delete_cells, erase_cells, move_rows, shift_rows, set_region, edit, setup, modes,
  soft_reset, plain, dispatch, nothing_misplaced, column, has, is_none, is_motion, is_edit,
  parameters, asks, tail_of, is_private, is_bang,
}
use bashtion_wasm.Screen.Bounds.{
  Holds, set_cells-cols, InBounds, buf-Holds, with_buf-InBounds, set_line-InBounds,
  set_cells-InBounds,
}
use bashtion_wasm.Screen.Bounds.Motion.{
  rotate_rows-Holds, scroll_up-InBounds, scroll_down-InBounds, mark_wrapped-InBounds, save-InBounds,
  restore-InBounds, mode-InBounds, to_x-InBounds,
}

module _ {shape : Geometry} where
  motion-InBounds :
      (final n p0 p1 : ℕ) {d : Display} → InBounds shape d → InBounds shape (motion final n p0 p1 d)
  unfolding motion up down to_column
  motion-InBounds final n p0 p1 {d} h = ground arith

  drop_scrollback-InBounds : {d : Display} → InBounds shape d → InBounds shape (drop_scrollback d)
  unfolding drop_scrollback
  drop_scrollback-InBounds {d} h = ground (arith, length-drop {0} d.main.base d.main.lines)

  renew_rows-InBounds :
      (n i : ℕ) {d : Display} → InBounds shape d → InBounds shape (renew_rows i n d)
  unfolding renew_rows
  renew_rows-InBounds zero i h = h
  renew_rows-InBounds (suc n) i h = renew_rows-InBounds n (i + 1) (set_line-InBounds i new_row h)

  erase_line-InBounds : (p0 : ℕ) {d : Display} → InBounds shape d → InBounds shape (erase_line p0 d)
  unfolding erase_line
  erase_line-InBounds p0 {d} h = if_keep (InBounds shape) (p0 == 0) (set_cells-InBounds d.y _ h) (
      if_keep (InBounds shape) (p0 == 1) (set_cells-InBounds d.y _ h)
        (if_keep (InBounds shape) (p0 == 2) (set_cells-InBounds d.y _ h) h))

  erase_here-InBounds : (p0 : ℕ) {d : Display} → InBounds shape d → InBounds shape (erase_here p0 d)
  unfolding erase_here
  erase_here-InBounds p0 {d} h =
      let known : InBounds shape
          (record d { unsure = if nothing_misplaced p0 d then false else d.unsure }) =
        ground arith in
      let unmarked =
        if_keep (InBounds shape) (p0 == 0 && d.x == 0) (mark_wrapped-InBounds false known) known in
      if_keep (InBounds shape) (p0 == 2) unmarked (erase_line-InBounds p0 unmarked)

  erase_display-InBounds :
      (p0 : ℕ) {d : Display} → InBounds shape d → InBounds shape (erase_display p0 d)
  unfolding erase_display
  erase_display-InBounds p0 {d} h =
      let here = erase_here-InBounds p0 h in
      if_keep (InBounds shape) (p0 == 3) (drop_scrollback-InBounds h) (
        if_keep (InBounds shape) (p0 == 0) (renew_rows-InBounds _ _ here) (
          if_keep (InBounds shape) (p0 == 1) (renew_rows-InBounds _ _ here)
            (if_keep (InBounds shape) (p0 == 2) (renew_rows-InBounds _ _ here) here)))

  -- The cursor put on a column of the display, behind a write to one of its rows.
  column-le-cols : (d : Display) → InBounds shape d → column d ≤ d.cols
  column-le-cols d h = omega arith

  set_cells_to-InBounds :
      (cs : List Cell) {d : Display}
      → InBounds shape d
      → InBounds shape (record (set_cells d d.y cs) { x = column d })
  set_cells_to-InBounds cs {d} h =
      to_x-InBounds _ (column d) (set_cells-InBounds d.y cs h)
        (omega (arith, set_cells-cols d d.y cs))

  insert_blanks-InBounds :
      (n : ℕ) {d : Display} → InBounds shape d → InBounds shape (insert_blanks n d)
  unfolding insert_blanks
  insert_blanks-InBounds n {d} h = elim (Bool-cases (ltb (column d) (length (line d d.y).cells))) [
    | inl inside ↦ rw inside (set_cells_to-InBounds _ h)
    | inr past ↦ rw past (to_x-InBounds d (column d) h (column-le-cols d h))
  ]

  delete_cells-InBounds :
      (n : ℕ) {d : Display} → InBounds shape d → InBounds shape (delete_cells n d)
  unfolding delete_cells
  delete_cells-InBounds n h = set_cells_to-InBounds _ h

  erase_cells-InBounds : (n : ℕ) {d : Display} → InBounds shape d → InBounds shape (erase_cells n d)
  unfolding erase_cells
  erase_cells-InBounds n h = set_cells_to-InBounds _ h

  move_rows-InBounds :
      (lines_in : Bool) (k : ℕ) {d : Display}
      → InBounds shape d
      → InBounds shape (move_rows lines_in k d)
  unfolding move_rows
  move_rows-InBounds lines_in zero h = h
  move_rows-InBounds lines_in (suc k) {d} h = move_rows-InBounds lines_in k (
      with_buf-InBounds _ h (
        if_keep (Holds d.rows) lines_in
          (rotate_rows-Holds d.rows (buf d) d.bottom d.y h.bottom_lt (buf-Holds h))
          (rotate_rows-Holds d.rows (buf d) d.y d.bottom h.y_lt (buf-Holds h))))

  shift_rows-InBounds :
      (lines_in : Bool) (n : ℕ) {d : Display}
      → InBounds shape d
      → InBounds shape (shift_rows lines_in n d)
  unfolding shift_rows
  shift_rows-InBounds lines_in n {d} h =
      if_keep (InBounds shape) (ltb d.y d.top || ltb d.bottom d.y) h
        (to_x-InBounds _ 0 (move_rows-InBounds lines_in _ h) (omega arith))

  set_region-InBounds :
      (p0 p1 : ℕ) {d : Display} → InBounds shape d → InBounds shape (set_region p0 p1 d)
  unfolding set_region
  set_region-InBounds p0 p1 {d} h = ground arith

  edit-InBounds :
      (final n p0 : ℕ) {d : Display} → InBounds shape d → InBounds shape (edit final n p0 d)
  unfolding edit
  edit-InBounds final n p0 {d} h =
      if_keep (InBounds shape) (final == b'J') (erase_display-InBounds p0 h) (
        if_keep (InBounds shape) (final == b'K') (erase_line-InBounds p0 h) (
          if_keep (InBounds shape) (final == b'@') (insert_blanks-InBounds n h) (
            if_keep (InBounds shape) (final == b'P') (delete_cells-InBounds n h) (
              if_keep (InBounds shape) (final == b'X') (erase_cells-InBounds n h) (
                if_keep (InBounds shape) (final == b'L') (shift_rows-InBounds true n h)
                  (if_keep (InBounds shape) (final == b'M') (shift_rows-InBounds false n h) h))))))

  setup-InBounds :
      (final n : ℕ) (ps : List ℕ) (params : Str) {d : Display}
      → InBounds shape d
      → InBounds shape (setup final n ps params d)
  unfolding setup
  setup-InBounds final n ps params {d} h =
      let inserting : InBounds shape
          (record d { insert = if has 4 ps then final == b'h' else d.insert }) =
        ground arith in
      if_keep (InBounds shape) (final == b'S') (scroll_up-InBounds _ h) (
        if_keep (InBounds shape) (final == b'T')
          (if_keep (InBounds shape) (length ps == 1) (scroll_down-InBounds _ h) h)
          (if_keep (InBounds shape) (final == b'r') (set_region-InBounds _ _ h) (
            if_keep (InBounds shape) (final == b's')
              (if_keep (InBounds shape) (is_none params) (save-InBounds h) h)
              (if_keep (InBounds shape) (final == b'u')
                (if_keep (InBounds shape) (is_none params) (restore-InBounds h) h)
                (if_keep (InBounds shape) (final == b'h' || final == b'l') inserting h)))))

  modes-InBounds :
      (ps : List ℕ) (on : Bool) {d : Display} → InBounds shape d → InBounds shape (modes ps on d)
  unfolding modes
  modes-InBounds [] on h = h
  modes-InBounds (p ∷ ps) on h = modes-InBounds ps on (mode-InBounds p on h)

  soft_reset-InBounds : {d : Display} → InBounds shape d → InBounds shape (soft_reset d)
  unfolding soft_reset
  soft_reset-InBounds {d} h = with_buf-InBounds _ (ground arith) (buf-Holds h)

  plain-InBounds :
      (final : ℕ) (params : Str) {d : Display}
      → InBounds shape d
      → InBounds shape (plain final params d)
  unfolding plain
  plain-InBounds final params {d} h =
      if_keep (InBounds shape) (is_motion final) (motion-InBounds final _ _ _ h) (
        if_keep (InBounds shape) (is_edit final) (edit-InBounds final _ _ h)
          (setup-InBounds final _ (parameters params) params h))

  -- The display stays in bounds under every control sequence.
  pub dispatch-InBounds :
      (final : ℕ) (params inter : Str) {d : Display}
      → InBounds shape d
      → InBounds shape (dispatch final params inter d)
  unfolding dispatch
  dispatch-InBounds final params inter {d} h =
      if_keep (InBounds shape) (is_bang inter && final == b'p') (soft_reset-InBounds h) (
        if_keep (InBounds shape) (not (is_none inter)) h (
          if_keep (InBounds shape) (asks params && (final == b'h' || final == b'l'))
            (modes-InBounds (parameters (tail_of params)) (final == b'h') h)
            (if_keep (InBounds shape) (is_private params) h (plain-InBounds final params h))))
