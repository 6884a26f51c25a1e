-- ===== src/Screen/Whole/Parser.antt =====
-- Whatever the guest writes, every row of both buffers stays whole.
use bashtion_wasm.Base.{
  if_keep, ℕ, Bool, true, false, [], ◌∷◌, Option, arith, ltb, leb, within, not, ◌==◌, ◌||◌, ◌&&◌,
  Str,
}
use bashtion_wasm.Screen.Width.{width}
use bashtion_wasm.Screen.Display.{Geometry, Display, reset, declared, new, size}
use bashtion_wasm.Screen.Parser.{
  Mode, ground_state, esc, esc_inter, csi, osc_text, str_text, str_esc, Screen, make_screen,
  end_string, escape, ground_char, string_char, string_escape, or_control, csi_char, or_cancel,
  step_in, step, run, write,
}
use bashtion_wasm.Screen.Bounds.Parser.{width_le_two}
use bashtion_wasm.Screen.Whole.Rows.{IsWhole, buffer-Whole}
use bashtion_wasm.Screen.Whole.Motion.{
  line_feed-IsWhole, reverse_index-IsWhole, carriage_return-IsWhole, print-IsWhole, control-IsWhole,
  save-IsWhole, restore-IsWhole,
}
use bashtion_wasm.Screen.Whole.Fit.{fit-IsWhole}
use bashtion_wasm.Screen.Whole.Csi.{dispatch-IsWhole}

abbrev WholeScreen : Screen → Type 0
WholeScreen s = IsWhole s.display

reset-IsWhole : (d : Display) → IsWhole (reset d)
unfolding reset
reset-IsWhole d = record { main_whole = buffer-Whole d.rows 1000; alt_whole = tt }

pub make_screen-Whole : (g : Option Geometry) → IsWhole (make_screen g).display
unfolding make_screen new
make_screen-Whole g = reset-IsWhole (declared (size g))

module _ (s : Screen) (h : IsWhole s.display) where
  end_string-Whole : WholeScreen (end_string s)
  unfolding end_string
  end_string-Whole = h

  escape-Whole : (c : ℕ) → WholeScreen (escape c s)
  unfolding escape
  escape-Whole c = if_keep WholeScreen (c == b'[') h (
      if_keep WholeScreen (c == b']') h (
        if_keep WholeScreen (c == b'P' || c == b'X' || c == b'^' || c == b'_') h (
          if_keep WholeScreen (c == b'7') (save-IsWhole h) (
            if_keep WholeScreen (c == b'8') (restore-IsWhole h) (
              if_keep WholeScreen (c == b'D') (line_feed-IsWhole h) (
                if_keep WholeScreen (c == b'E') (line_feed-IsWhole (carriage_return-IsWhole h)) (
                  if_keep WholeScreen (c == b'M') (reverse_index-IsWhole h) (
                    if_keep WholeScreen (c == b'c') (reset-IsWhole s.display)
                      (if_keep WholeScreen (within 0x20 0x2f c) h h)))))))))

  ground_char-Whole : (c : ℕ) → WholeScreen (ground_char c s)
  unfolding ground_char
  ground_char-Whole c =
      if_keep WholeScreen (leb 0x20 c && not (c == 0x7f) && (ltb c 0x80 || leb 0xa0 c))
        (print-IsWhole c (width c) (width_le_two c) h)
        (if_keep WholeScreen (c == 0x1b) h (
          if_keep WholeScreen (c == 0x9b) h (
            if_keep WholeScreen (c == 0x9d) h (
              if_keep WholeScreen (c == 0x90 || c == 0x98 || c == 0x9e || c == 0x9f) h
                (control-IsWhole c h)))))

  string_char-Whole : (bel : Bool) (c : ℕ) → WholeScreen (string_char bel c s)
  unfolding string_char
  string_char-Whole bel c =
      if_keep WholeScreen (c == 0x9c || (c == 0x07 && bel)) end_string-Whole
        (if_keep WholeScreen (c == 0x1b) h h)

  string_escape-Whole : (c : ℕ) → WholeScreen (string_escape c s)
  unfolding string_escape
  string_escape-Whole c = if_keep WholeScreen (c == b'\\') end_string-Whole (
      if_keep WholeScreen (c == 0x1b) h
        (if_keep WholeScreen (ltb c 0x20) (control-IsWhole c h) (escape-Whole c)))

  csi_char-Whole : (c : ℕ) → WholeScreen (csi_char c s)
  unfolding csi_char
  csi_char-Whole c = ground (arith, dispatch-IsWhole c s.params s.inter h)

  or_control-Whole :
      (c : ℕ) (other : Screen) → WholeScreen other → WholeScreen (or_control c s other)
  or_control-Whole c other o =
      if_keep WholeScreen (c == 0x1b) h (if_keep WholeScreen (ltb c 0x20) (control-IsWhole c h) o)

  or_cancel-Whole : (c : ℕ) (other : Screen) → WholeScreen other → WholeScreen (or_cancel c s other)
  or_cancel-Whole c other o = if_keep WholeScreen (c == 0x18 || c == 0x1a) h o

step_in-Whole : (m : Mode) (c : ℕ) (s : Screen) → WholeScreen s → WholeScreen (step_in m c s)
unfolding step_in
step_in-Whole ground_state c s h = ground_char-Whole s h c
step_in-Whole osc_text c s h = or_cancel-Whole s h c _ (string_char-Whole s h true c)
step_in-Whole str_text c s h = or_cancel-Whole s h c _ (string_char-Whole s h false c)
step_in-Whole str_esc c s h = or_cancel-Whole s h c _ (string_escape-Whole s h c)
step_in-Whole esc c s h = or_cancel-Whole s h c _ (or_control-Whole s h c _ (escape-Whole s h c))
step_in-Whole esc_inter c s h =
    or_cancel-Whole s h c _ (or_control-Whole s h c _ (if_keep WholeScreen (ltb 0x2f c) h h))
step_in-Whole csi c s h = or_cancel-Whole s h c _ (or_control-Whole s h c _ (csi_char-Whole s h c))

run-Whole : (text : Str) (s : Screen) → WholeScreen s → WholeScreen (run s text)
unfolding run step
run-Whole [] s h = h
run-Whole (c ∷ text) s h = run-Whole text _ (step_in-Whole s.state c s h)

-- Whatever text the guest writes, at whatever geometry of the terminal, no row of the main or the
-- alternate buffer comes to hold the right half of a wide character without its left half.
pub write-IsWhole :
    (g : Option Geometry) (text : Str) (s : Screen)
    → IsWhole s.display
    → IsWhole (write g s text).display
unfolding write
write-IsWhole g text s h = run-Whole text _ (fit-IsWhole g h)
