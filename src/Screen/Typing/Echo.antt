-- ===== src/Screen/Typing/Echo.antt =====
-- What is written at the end of a row is what the cursor's line reads back.
use mathlib.Core.List.{append-nil, append_assoc}
use mathlib.Core.Path.{ap₂, subst}
use bashtion_wasm.Base.{
  ℕ, ◌+◌, ◌≤◌, ◌<◌, ◌≡◌, refl, sym, ap, ◌∙◌, Bool, true, false, List, [], ◌∷◌, ◌++◌, All, length,
  set, arith, ltb, ltb→lt, Bool-cases, inl, inr, Str,
}
use bashtion_wasm.Screen.Width.{width}
use bashtion_wasm.Screen.Cells.{Cell, glyph, Row, put}
use bashtion_wasm.Screen.Display.{Display, Geometry, buf, line, with_buf, set_line, set_cells}
use bashtion_wasm.Screen.Motion.{make_room, shifted, write_cells, place_char, print}
use bashtion_wasm.Screen.Parser.{Screen, ground_state, ground_char, step_in, step, run}
use bashtion_wasm.Screen.Reading.{row_at, cursor_line}
use bashtion_wasm.Screen.Bounds.{InBounds, buf-Holds}
use bashtion_wasm.Screen.Bounds.Parser.{IsSound, run-IsSound}
use bashtion_wasm.Screen.Typing.{
  write_cells_end, row_at-set_self, line_before, line_before_lem, line_before-set, length-put,
}

-- Printable ASCII.
abbrev pub IsPlain : Str → Type 0
IsPlain = All (λ c. (0x20 ≤ c) × (c < 0x7f))

-- The cursor is at the end of its row, with room for `n` more columns, outside any sequence.
pub record AtRowEnd (shape : Geometry) (n : ℕ) (s : Screen) : Type 0 where
  pub sound : IsSound shape s
  pub in_ground : s.state ≡ ground_state
  pub overwriting : s.display.insert ≡ false
  pub room : s.display.x + n ≤ s.display.cols
  pub at_end : length (line s.display s.display.y).cells ≤ s.display.x

abbrev written : ℕ → Display → Display
written c d = record (set_cells d d.y (put (line d d.y).cells d.x (glyph (c ∷ [])))) { x = d.x + 1 }

width_plain : (c : ℕ) → c < 0x7f → width c ≡ 1
unfolding width
width_plain c h = ground arith

make_room_none : (d : Display) → d.x + 1 ≤ d.cols → make_room 1 d ≡ d
unfolding make_room
make_room_none d h = elim (Bool-cases (ltb d.cols (d.x + 1))) [
  | inl full ↦ absurd (omega (arith, ltb→lt d.cols (d.x + 1) full))
  | inr room ↦ rw room
]

shifted_off :
    (cells : List Cell) (x w cols : ℕ) (insert : Bool)
    → insert ≡ false
    → shifted cells x w cols insert ≡ cells
shifted_off cells x w cols false e = refl
shifted_off cells x w cols true e = absurd (cc)

print-written :
    (c : ℕ) (d : Display)
    → d.insert ≡ false
    → d.x + 1 ≤ d.cols
    → length (line d d.y).cells ≤ d.x
    → print c 1 d ≡ written c d
unfolding print place_char
print-written c d i r e =
    ap (place_char c 1) (make_room_none d r)
    ∙ ap (λ cs. record (set_cells d d.y cs) { x = d.x + 1 })
        (ap (write_cells c 1 d.x) (shifted_off (line d d.y).cells d.x 1 d.cols d.insert i)
          ∙ write_cells_end c d.x (line d d.y).cells e)

ground_char_plain :
    (c : ℕ) (s : Screen)
    → 0x20 ≤ c
    → c < 0x7f
    → ground_char c s ≡ record s { display = print c 1 s.display }
unfolding ground_char
ground_char_plain c s lo hi = ground (arith, width_plain c hi)

step-written :
    {shape : Geometry} (n c : ℕ) (s : Screen)
    → AtRowEnd shape (n + 1) s
    → 0x20 ≤ c
    → c < 0x7f
    → step s c ≡ record s { display = written c s.display }
unfolding step step_in
step-written n c s h lo hi =
    ap (λ m. step_in m c s) h.in_ground
    ∙ ground_char_plain c s lo hi
    ∙ ap (λ d. record s { display = d })
        (print-written c s.display h.overwriting (omega (arith, h.room)) h.at_end)

buf-set_cells :
    (d : Display) (i : ℕ) (cs : List Cell)
    → ((buf (set_cells d i cs)).lines
        ≡ set (buf d).lines ((buf d).base + i) (record (line d i) { cells = cs }))
      × ((buf (set_cells d i cs)).base ≡ (buf d).base)
unfolding set_cells set_line with_buf
buf-set_cells d i cs = (ground arith, ground arith)

set_cells_frame :
    (d : Display) (i : ℕ) (cs : List Cell)
    → ((set_cells d i cs).y ≡ d.y)
      × ((set_cells d i cs).insert ≡ d.insert)
      × ((set_cells d i cs).cols ≡ d.cols)
unfolding set_cells set_line with_buf
set_cells_frame d i cs = ground arith

-- The cursor's line reads the character back, and the cursor is at the row's end again.
written-line_before :
    {shape : Geometry} (c : ℕ) (d : Display)
    → InBounds shape d
    → (cursor_line (written c d)).before ≡ (cursor_line d).before ++ (c ∷ [])
written-line_before c d h =
    let cs = put (line d d.y).cells d.x (glyph (c ∷ [])) in
    line_before_lem (written c d)
    ∙ ap₂ (λ ls n. line_before ls n (d.x + 1)) (buf-set_cells d d.y cs).0
        (ap₂ (◌+◌) (buf-set_cells d d.y cs).1 (set_cells_frame d d.y cs).0)
    ∙ line_before-set (buf d).lines ((buf d).base + d.y) d.x c
        (omega (arith, buf-Holds h, h.y_lt, h.rows_is))
    ∙ ap (λ t. t ++ (c ∷ [])) (sym (line_before_lem d))

length-written :
    {shape : Geometry} (c : ℕ) (d : Display)
    → InBounds shape d
    → length (line d d.y).cells ≤ d.x
    → length (line (written c d) (written c d).y).cells ≡ d.x + 1
length-written c d h e =
    let cs = put (line d d.y).cells d.x (glyph (c ∷ [])) in
    let row = record (line d d.y) { cells = cs } in
    ap₂ (λ ls n. length (row_at ls n).cells) (buf-set_cells d d.y cs).0
      (ap₂ (◌+◌) (buf-set_cells d d.y cs).1 (set_cells_frame d d.y cs).0)
    ∙ ap (λ (r : Row). length r.cells)
        (row_at-set_self (buf d).lines ((buf d).base + d.y) row
          (omega (arith, buf-Holds h, h.y_lt, h.rows_is)))
    ∙ length-put (line d d.y).cells d.x (glyph (c ∷ [])) e

written-AtRowEnd :
    {shape : Geometry} (n c : ℕ) (s : Screen)
    → AtRowEnd shape (n + 1) s
    → 0x20 ≤ c
    → c < 0x7f
    → AtRowEnd shape n (step s c)
unfolding run
written-AtRowEnd {shape} n c s h lo hi =
    let d = s.display in
    let cs = put (line d d.y).cells d.x (glyph (c ∷ [])) in
    let e = step-written n c s h lo hi in
    subst (AtRowEnd shape n) (sym e) (record {
      sound = subst (IsSound shape) e (run-IsSound (c ∷ []) h.sound);
      in_ground = h.in_ground;
      overwriting = (set_cells_frame d d.y cs).1 ∙ h.overwriting;
      room = omega (arith, (set_cells_frame d d.y cs).2, h.room);
      at_end = omega (arith, length-written c d h.sound.bounds h.at_end);
    })

-- Printable text written at the end of the cursor's row, as far as the row has room for it, stands
-- before the cursor behind what stood there: the cursor's line grows by that text, and nothing of
-- it is lost or doubled.
pub before-run :
    {shape : Geometry} (text : Str) (s : Screen)
    → AtRowEnd shape (length text) s
    → IsPlain text
    → (cursor_line (run s text).display).before ≡ (cursor_line s.display).before ++ text
unfolding run
before-run [] s h p = sym (append-nil _)
before-run {shape} (c ∷ text) s h p =
    let h' =
      subst (λ n. AtRowEnd shape n s) {x = length (c ∷ text)} {y = length text + 1} (omega arith)
        h in
    before-run text (step s c) (written-AtRowEnd (length text) c s h' p.0.0 p.0.1) p.1
    ∙ ap (λ (t : Screen). (cursor_line t.display).before ++ text)
        (step-written (length text) c s h' p.0.0 p.0.1)
    ∙ ap (λ t. t ++ text) (written-line_before c s.display h.sound.bounds)
    ∙ append_assoc (cursor_line s.display).before (c ∷ []) text
