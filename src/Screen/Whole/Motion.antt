-- ===== src/Screen/Whole/Motion.antt =====
-- Scrolling, printing and the control characters keep every row whole.
use bashtion_wasm.Base.{
  if_keep, ℕ, zero, suc, ◌+◌, ◌≤◌, ◌≡◌, refl, none, Bool, true, false, ◌==◌, ltb, ◌||◌, arith,
  if◌then◌else◌,
}
use bashtion_wasm.Screen.Display.{Display, buf}
use bashtion_wasm.Screen.Motion.{
  off_margin, up_from_top, count_move, scroll_up_row, scroll_up, scroll_down_row, scroll_down,
  next_row, line_feed, reverse_index, combine, mark_wrapped, make_room, place_char, print,
  backspace, tab, carriage_return, control, save, restore, enter_alt, set_origin, mode,
}
use bashtion_wasm.Screen.Whole.Rows.{
  IsWhole, buffer-Whole, buf-Whole, with_buf-IsWhole, line-Whole, set_line-IsWhole, push_row-Whole,
  rotate_rows-Whole, combine-IsWhole, place_char-IsWhole,
}

count_move-IsWhole : {d : Display} → IsWhole d → IsWhole (count_move d)
count_move-IsWhole h = ground arith

scroll_up_row-IsWhole : {d : Display} → IsWhole d → IsWhole (scroll_up_row d)
unfolding scroll_up_row
scroll_up_row-IsWhole {d} h =
    if_keep IsWhole (d.top == 0)
      (with_buf-IsWhole _ (count_move-IsWhole h) (push_row-Whole (buf d) d.bottom (buf-Whole h)))
      (with_buf-IsWhole _ h (rotate_rows-Whole (buf d) d.top d.bottom (buf-Whole h)))

pub scroll_up-IsWhole : (n : ℕ) {d : Display} → IsWhole d → IsWhole (scroll_up n d)
unfolding scroll_up
scroll_up-IsWhole zero h = h
scroll_up-IsWhole (suc n) h = scroll_up-IsWhole n (scroll_up_row-IsWhole h)

scroll_down_row-IsWhole : {d : Display} → IsWhole d → IsWhole (scroll_down_row d)
unfolding scroll_down_row
scroll_down_row-IsWhole {d} h =
    with_buf-IsWhole _ h (rotate_rows-Whole (buf d) d.bottom d.top (buf-Whole h))

pub scroll_down-IsWhole : (n : ℕ) {d : Display} → IsWhole d → IsWhole (scroll_down n d)
unfolding scroll_down
scroll_down-IsWhole zero h = h
scroll_down-IsWhole (suc n) h = scroll_down-IsWhole n (scroll_down_row-IsWhole h)

next_row-IsWhole : {d : Display} → IsWhole d → IsWhole (next_row d)
unfolding next_row
next_row-IsWhole {d} h = ground (arith, scroll_up_row-IsWhole h)

pub line_feed-IsWhole : {d : Display} → IsWhole d → IsWhole (line_feed d)
unfolding line_feed
line_feed-IsWhole {d} h = next_row-IsWhole (ground arith)

pub reverse_index-IsWhole : {d : Display} → IsWhole d → IsWhole (reverse_index d)
unfolding reverse_index up_from_top
reverse_index-IsWhole {d} h =
    let h' : IsWhole (off_margin d) = ground arith in ground (arith, scroll_down_row-IsWhole h')

pub mark_wrapped-IsWhole : (on : Bool) {d : Display} → IsWhole d → IsWhole (mark_wrapped on d)
unfolding mark_wrapped
mark_wrapped-IsWhole on {d} h = set_line-IsWhole d.y _ h (line-Whole d.y h)

make_room-IsWhole : (w : ℕ) {d : Display} → IsWhole d → IsWhole (make_room w d)
unfolding make_room
make_room-IsWhole w {d} h =
    let n = next_row-IsWhole h in
    let below : IsWhole (record (next_row d) { x = 0 }) = record {
      main_whole = n.main_whole;
      alt_whole = n.alt_whole;
    } in
    if_keep IsWhole (ltb d.cols (d.x + w))
      (if_keep IsWhole d.wrap (mark_wrapped-IsWhole true below)
        (record { main_whole = h.main_whole; alt_whole = h.alt_whole }))
      h

printed-IsWhole :
    (ch w : ℕ) {d : Display}
    → w ≤ 2
    → IsWhole d
    → (b : Bool) → (w == 0) ≡ b
    → IsWhole (if b then combine ch d else place_char ch w (make_room w d))
printed-IsWhole ch w le h true e = combine-IsWhole ch h
printed-IsWhole ch w le h false e =
    place_char-IsWhole ch w (ground arith) le (make_room-IsWhole w h)

pub print-IsWhole : (ch w : ℕ) {d : Display} → w ≤ 2 → IsWhole d → IsWhole (print ch w d)
unfolding print
print-IsWhole ch w {d} le h = printed-IsWhole ch w le h (w == 0) refl

pub carriage_return-IsWhole : {d : Display} → IsWhole d → IsWhole (carriage_return d)
unfolding carriage_return
carriage_return-IsWhole {d} h = ground arith

pub control-IsWhole : (c : ℕ) {d : Display} → IsWhole d → IsWhole (control c d)
unfolding control backspace tab carriage_return
control-IsWhole c {d} h =
    let home : IsWhole (record d { x = 0 }) = ground arith in
    ground (arith, line_feed-IsWhole h, reverse_index-IsWhole h, line_feed-IsWhole home)

pub save-IsWhole : {d : Display} → IsWhole d → IsWhole (save d)
unfolding save
save-IsWhole {d} h = with_buf-IsWhole _ h (buf-Whole h)

pub restore-IsWhole : {d : Display} → IsWhole d → IsWhole (restore d)
unfolding restore
restore-IsWhole {d} h = record { main_whole = h.main_whole; alt_whole = h.alt_whole }

enter_alt-IsWhole : {d : Display} → IsWhole d → IsWhole (enter_alt d)
unfolding enter_alt
enter_alt-IsWhole {d} h = ground (arith, buffer-Whole d.rows 0)

pub mode-IsWhole : (p : ℕ) (on : Bool) {d : Display} → IsWhole d → IsWhole (mode p on d)
unfolding mode set_origin
mode-IsWhole p on {d} h =
    let main_again : IsWhole (record d { alt = none }) = record {
      main_whole = h.main_whole;
      alt_whole = tt;
    } in
    if_keep IsWhole (p == 7) (record { main_whole = h.main_whole; alt_whole = h.alt_whole })
      (if_keep IsWhole (p == 6) (record { main_whole = h.main_whole; alt_whole = h.alt_whole })
        (if_keep IsWhole (p == 47 || p == 1047 || p == 1049)
          (if_keep IsWhole on (enter_alt-IsWhole (if_keep IsWhole (p == 1049) (save-IsWhole h) h))
            (if_keep IsWhole (p == 1049) (restore-IsWhole main_again) main_again))
          h))
