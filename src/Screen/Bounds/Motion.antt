-- ===== src/Screen/Bounds/Motion.antt =====
-- Scrolling, printing and the control characters stay in bounds.
use bashtion_wasm.Base.{
  if_keep, ℕ, zero, suc, ◌+◌, ◌-◌, ◌≤◌, ◌<◌, ◌≡◌, refl, Bool, true, none, insert_at, remove_at,
  length-insert_at, length-remove_at, length-drop, ◌==◌, ltb, ltb→ge, Bool-cases, inl, inr, ◌||◌,
  arith,
}
use bashtion_wasm.Screen.Cells.{new_row}
use bashtion_wasm.Screen.Display.{Buffer, Geometry, Display, buf}
use bashtion_wasm.Screen.Motion.{
  off_margin, up_from_top, count_move, push_row, rotate_rows, scroll_up_row, scroll_up,
  scroll_down_row, scroll_down, next_row, line_feed, reverse_index, combine, mark_wrapped,
  make_room, place_char, print, backspace, tab, carriage_return, control, save, restore, enter_alt,
  set_origin, mode,
}
use bashtion_wasm.Screen.Bounds.{
  Holds, InBounds, buf-Holds, with_buf-InBounds, set_line-InBounds, set_cells-InBounds,
  set_cells-cols, set_line-cols, set_line-x, buffer-Holds,
}

pub push_row-Holds :
    (rows : ℕ) (b : Buffer) (bottom : ℕ) → Holds rows b → Holds rows (push_row b bottom)
unfolding push_row
push_row-Holds rows b bottom h = ground (
  arith,
  length-insert_at {0} b.lines (b.base + bottom + 1) new_row,
  length-drop {0} (b.base + 1 - b.keep) (insert_at b.lines (b.base + bottom + 1) new_row),
)

pub rotate_rows-Holds :
    (rows : ℕ) (b : Buffer) (out into : ℕ)
    → out < rows
    → Holds rows b
    → Holds rows (rotate_rows b out into)
unfolding rotate_rows
rotate_rows-Holds rows b out into lt h = omega (
  arith,
  length-insert_at {0} (remove_at b.lines (b.base + out)) (b.base + into) new_row,
  length-remove_at {0} b.lines (b.base + out) (omega arith),
)

-- A character fits on the row once there is room for it.
record Room (shape : Geometry) (w : ℕ) (d : Display) : Type 0 where
  bounds : InBounds shape d
  fits : d.x + w ≤ d.cols

module _ {shape : Geometry} where
  pub to_x-InBounds :
      (d : Display) (x : ℕ) → InBounds shape d → x ≤ d.cols → InBounds shape (record d { x = x })
  to_x-InBounds d x h le = ground arith

  pub count_move-InBounds : {d : Display} → InBounds shape d → InBounds shape (count_move d)
  count_move-InBounds h = ground arith

  pub scroll_up_row-InBounds : {d : Display} → InBounds shape d → InBounds shape (scroll_up_row d)
  unfolding scroll_up_row
  scroll_up_row-InBounds {d} h =
      if_keep (InBounds shape) (d.top == 0)
        (with_buf-InBounds _ (count_move-InBounds h)
          (push_row-Holds d.rows (buf d) d.bottom (buf-Holds h)))
        (with_buf-InBounds _ h
          (rotate_rows-Holds d.rows (buf d) d.top d.bottom (omega arith) (buf-Holds h)))

  pub scroll_up-InBounds : (n : ℕ) {d : Display} → InBounds shape d → InBounds shape (scroll_up n d)
  unfolding scroll_up
  scroll_up-InBounds zero h = h
  scroll_up-InBounds (suc n) h = scroll_up-InBounds n (scroll_up_row-InBounds h)

  pub scroll_down_row-InBounds :
      {d : Display} → InBounds shape d → InBounds shape (scroll_down_row d)
  unfolding scroll_down_row
  scroll_down_row-InBounds {d} h =
      with_buf-InBounds _ h
        (rotate_rows-Holds d.rows (buf d) d.bottom d.top h.bottom_lt (buf-Holds h))

  pub scroll_down-InBounds :
      (n : ℕ) {d : Display} → InBounds shape d → InBounds shape (scroll_down n d)
  unfolding scroll_down
  scroll_down-InBounds zero h = h
  scroll_down-InBounds (suc n) h = scroll_down-InBounds n (scroll_down_row-InBounds h)

  pub next_row-InBounds : {d : Display} → InBounds shape d → InBounds shape (next_row d)
  unfolding next_row
  next_row-InBounds {d} h = ground (arith, scroll_up_row-InBounds h)

  pub line_feed-InBounds : {d : Display} → InBounds shape d → InBounds shape (line_feed d)
  unfolding line_feed
  line_feed-InBounds {d} h = next_row-InBounds (ground arith)

  pub reverse_index-InBounds : {d : Display} → InBounds shape d → InBounds shape (reverse_index d)
  unfolding reverse_index up_from_top
  reverse_index-InBounds {d} h =
      let h' : InBounds shape (off_margin d) = ground arith in
      ground (arith, scroll_down_row-InBounds h')

  pub combine-InBounds : (ch : ℕ) {d : Display} → InBounds shape d → InBounds shape (combine ch d)
  unfolding combine
  combine-InBounds ch {d} h = set_cells-InBounds d.y _ h

  pub mark_wrapped-InBounds :
      (on : Bool) {d : Display} → InBounds shape d → InBounds shape (mark_wrapped on d)
  unfolding mark_wrapped
  mark_wrapped-InBounds on {d} h = set_line-InBounds d.y _ h

  -- The place behind a deferred wrap: the first column of the row that was marked.
  wrap_to_next :
      (w : ℕ) {d : Display}
      → w ≤ 2
      → InBounds shape d
      → d.x ≡ 0
      → Room shape w (mark_wrapped true d)
  unfolding mark_wrapped
  wrap_to_next w {d} le h z = record {
    bounds = set_line-InBounds d.y _ h;
    fits = omega (arith, set_line-cols d d.y _, set_line-x d d.y _, h.cols_min);
  }

  make_room-Room : (w : ℕ) {d : Display} → w ≤ 2 → InBounds shape d → Room shape w (make_room w d)
  unfolding make_room
  make_room-Room w {d} le h =
      let below = to_x-InBounds _ 0 (next_row-InBounds h) (omega arith) in
      elim (Bool-cases (ltb d.cols (d.x + w))) [
        | inl full ↦ rw full (
            if_keep (Room shape w) d.wrap (wrap_to_next w le below refl) (record {
              bounds = to_x-InBounds d (d.cols - w) h (omega arith);
              fits = omega (arith, h.cols_min);
            }))
        | inr room ↦ rw room (record { bounds = h; fits = ltb→ge d.cols (d.x + w) room })
      ]

  place_char-InBounds :
      (ch w : ℕ) {d : Display} → Room shape w d → InBounds shape (place_char ch w d)
  unfolding place_char
  place_char-InBounds ch w {d} r =
      to_x-InBounds _ _ (set_cells-InBounds d.y _ r.bounds)
        (omega (arith, set_cells-cols d d.y _, r.fits))

  pub print-InBounds :
      (ch w : ℕ) {d : Display} → w ≤ 2 → InBounds shape d → InBounds shape (print ch w d)
  unfolding print
  print-InBounds ch w {d} le h =
      if_keep (InBounds shape) (w == 0) (combine-InBounds ch h)
        (place_char-InBounds ch w (make_room-Room w le h))

  pub carriage_return-InBounds :
      {d : Display} → InBounds shape d → InBounds shape (carriage_return d)
  unfolding carriage_return
  carriage_return-InBounds {d} h = to_x-InBounds d 0 h (omega arith)

  pub control-InBounds : (c : ℕ) {d : Display} → InBounds shape d → InBounds shape (control c d)
  unfolding control backspace tab carriage_return
  control-InBounds c {d} h =
      let home : InBounds shape (record d { x = 0 }) = ground arith in
      ground (arith, line_feed-InBounds h, reverse_index-InBounds h, line_feed-InBounds home)

  pub save-InBounds : {d : Display} → InBounds shape d → InBounds shape (save d)
  unfolding save
  save-InBounds {d} h = with_buf-InBounds _ h (buf-Holds h)

  pub restore-InBounds : {d : Display} → InBounds shape d → InBounds shape (restore d)
  unfolding restore
  restore-InBounds {d} h = ground arith

  pub enter_alt-InBounds : {d : Display} → InBounds shape d → InBounds shape (enter_alt d)
  unfolding enter_alt
  enter_alt-InBounds {d} h = ground (arith, buffer-Holds d.rows 0)

  pub set_origin-InBounds :
      (on : Bool) {d : Display} → InBounds shape d → InBounds shape (set_origin on d)
  unfolding set_origin
  set_origin-InBounds on {d} h = ground arith

  pub mode-InBounds :
      (p : ℕ) (on : Bool) {d : Display} → InBounds shape d → InBounds shape (mode p on d)
  unfolding mode
  mode-InBounds p on {d} h =
      let main_again : InBounds shape (record d { alt = none }) = ground arith in
      let wrapping : InBounds shape (record d { wrap = on }) = ground arith in
      if_keep (InBounds shape) (p == 7) wrapping (
        if_keep (InBounds shape) (p == 6) (set_origin-InBounds on h) (
          if_keep (InBounds shape) (p == 47 || p == 1047 || p == 1049)
            (if_keep (InBounds shape) on
              (enter_alt-InBounds (if_keep (InBounds shape) (p == 1049) (save-InBounds h) h))
              (if_keep (InBounds shape) (p == 1049) (restore-InBounds main_again) main_again))
            h))
