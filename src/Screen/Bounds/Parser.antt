-- ===== src/Screen/Bounds/Parser.antt =====
-- Whatever the guest writes, the screen stays in bounds, and so do the parser's three buffers.
use bashtion_wasm.Base.{
  if_keep, ℕ, ◌+◌, ◌≤◌, ◌≡◌, Bool, true, false, [], ◌∷◌, ◌++◌, Option, none, some, length,
  length-append, arith, ltb, leb, within, not, ◌==◌, ◌||◌, ◌&&◌, Str,
}
use bashtion_wasm.Screen.Width.{width}
use bashtion_wasm.Screen.Display.{Geometry, Display, size, reset}
use bashtion_wasm.Screen.Motion.{
  print, control, save, restore, line_feed, reverse_index, carriage_return,
}
use bashtion_wasm.Screen.Parser.{
  Mode, ground_state, esc, esc_inter, csi, osc_text, str_text, str_esc, Screen, make_screen, units,
  end_string, on_display, enter, start_csi, start_osc, start_str, escape, ground_char, append_osc,
  string_char, string_escape, or_control, csi_char, or_cancel, step_in, step, run, write,
}
use bashtion_wasm.Screen.Bounds.{InBounds, reset-InBounds, new-InBounds}
use bashtion_wasm.Screen.Bounds.Motion.{
  carriage_return-InBounds, line_feed-InBounds, reverse_index-InBounds, print-InBounds,
  control-InBounds, save-InBounds, restore-InBounds,
}
use bashtion_wasm.Screen.Bounds.Fit.{fit-InBounds}
use bashtion_wasm.Screen.Bounds.Csi.{dispatch-InBounds}

pub width_le_two : (c : ℕ) → width c ≤ 2
unfolding width
width_le_two c = ground arith

abbrev OscFits : Option Str → Type 0
OscFits none = Unit
OscFits (some p) = units p ≤ 1025

-- A screen in bounds: its display, and what the parser has collected.
pub record IsSound (shape : Geometry) (s : Screen) : Type 0 where
  pub bounds : InBounds shape s.display
  pub params_fit : length s.params ≤ 64
  pub inter_fit : length s.inter ≤ 8
  pub osc_fit : OscFits s.osc

module _ {shape : Geometry} {s : Screen} (h : IsSound shape s) where
  on_display-IsSound :
      (f : Display → Display) → InBounds shape (f s.display) → IsSound shape (on_display f s)
  on_display-IsSound f b = record {
    bounds = b;
    params_fit = h.params_fit;
    inter_fit = h.inter_fit;
    osc_fit = h.osc_fit;
  }

  enter-IsSound : (m : Mode) → IsSound shape (enter m s)
  enter-IsSound m = record {
    bounds = h.bounds;
    params_fit = h.params_fit;
    inter_fit = h.inter_fit;
    osc_fit = h.osc_fit;
  }

  start_csi-IsSound : IsSound shape (start_csi s)
  start_csi-IsSound = record {
    bounds = h.bounds;
    params_fit = omega arith;
    inter_fit = omega arith;
    osc_fit = h.osc_fit;
  }

  start_osc-IsSound : IsSound shape (start_osc s)
  start_osc-IsSound = record {
    bounds = h.bounds;
    params_fit = h.params_fit;
    inter_fit = h.inter_fit;
    osc_fit = omega arith;
  }

  start_str-IsSound : IsSound shape (start_str s)
  start_str-IsSound = record {
    bounds = h.bounds;
    params_fit = h.params_fit;
    inter_fit = h.inter_fit;
    osc_fit = tt;
  }

  end_string-IsSound : IsSound shape (end_string s)
  unfolding end_string
  end_string-IsSound = record {
    bounds = h.bounds;
    params_fit = h.params_fit;
    inter_fit = h.inter_fit;
    osc_fit = h.osc_fit;
  }

pub units-append : (p q : Str) → units (p ++ q) ≡ units p + units q
units-append [] q = omega arith
units-append (c ∷ p) q = omega (arith, units-append p q)

append_osc-OscFits : (c : ℕ) (o : Option Str) → OscFits o → OscFits (append_osc c o)
append_osc-OscFits c none h = tt
append_osc-OscFits c (some p) h = ground (arith, units-append p (c ∷ []))

module _ {shape : Geometry} {s : Screen} (h : IsSound shape s) where
  escape-IsSound : (c : ℕ) → IsSound shape (escape c s)
  unfolding escape
  escape-IsSound c =
      let g = enter-IsSound h ground_state in
      let b = h.bounds in
      if_keep (IsSound shape) (c == b'[') (start_csi-IsSound h) (
        if_keep (IsSound shape) (c == b']') (start_osc-IsSound h) (
          if_keep (IsSound shape) (c == b'P' || c == b'X' || c == b'^' || c == b'_')
            (start_str-IsSound h)
            (if_keep (IsSound shape) (c == b'7') (on_display-IsSound g save (save-InBounds b)) (
              if_keep (IsSound shape) (c == b'8')
                (on_display-IsSound g restore (restore-InBounds b))
                (if_keep (IsSound shape) (c == b'D')
                  (on_display-IsSound g line_feed (line_feed-InBounds b))
                  (if_keep (IsSound shape) (c == b'E')
                    (on_display-IsSound g (λ d. line_feed (carriage_return d))
                      (line_feed-InBounds (carriage_return-InBounds b)))
                    (if_keep (IsSound shape) (c == b'M')
                      (on_display-IsSound g reverse_index (reverse_index-InBounds b))
                      (if_keep (IsSound shape) (c == b'c')
                        (on_display-IsSound g reset (
                          reset-InBounds s.display b.cols_is b.rows_is b.cols_min
                            (omega (arith, b.y_lt))))
                        (if_keep (IsSound shape) (within 0x20 0x2f c) (enter-IsSound h esc_inter)
                          g)))))))))

  ground_char-IsSound : (c : ℕ) → IsSound shape (ground_char c s)
  unfolding ground_char
  ground_char-IsSound c =
      if_keep (IsSound shape) (leb 0x20 c && not (c == 0x7f) && (ltb c 0x80 || leb 0xa0 c))
        (on_display-IsSound h (print c (width c))
          (print-InBounds c (width c) (width_le_two c) h.bounds))
        (if_keep (IsSound shape) (c == 0x1b) (enter-IsSound h esc) (
          if_keep (IsSound shape) (c == 0x9b) (start_csi-IsSound h) (
            if_keep (IsSound shape) (c == 0x9d) (start_osc-IsSound h) (
              if_keep (IsSound shape) (c == 0x90 || c == 0x98 || c == 0x9e || c == 0x9f)
                (start_str-IsSound h)
                (on_display-IsSound h (control c) (control-InBounds c h.bounds))))))

  string_char-IsSound : (bel : Bool) (c : ℕ) → IsSound shape (string_char bel c s)
  unfolding string_char
  string_char-IsSound bel c =
      if_keep (IsSound shape) (c == 0x9c || (c == 0x07 && bel)) (end_string-IsSound h) (
        if_keep (IsSound shape) (c == 0x1b) (enter-IsSound h str_esc) (record {
          bounds = h.bounds;
          params_fit = h.params_fit;
          inter_fit = h.inter_fit;
          osc_fit = append_osc-OscFits c s.osc h.osc_fit;
        }))

  controlled : (m : Mode) (c : ℕ) → IsSound shape (on_display (control c) (enter m s))
  controlled m c = on_display-IsSound (enter-IsSound h m) (control c) (control-InBounds c h.bounds)

  string_escape-IsSound : (c : ℕ) → IsSound shape (string_escape c s)
  unfolding string_escape
  string_escape-IsSound c = if_keep (IsSound shape) (c == b'\\') (end_string-IsSound h) (
      if_keep (IsSound shape) (c == 0x1b) (enter-IsSound h esc)
        (if_keep (IsSound shape) (ltb c 0x20) (controlled esc c) (escape-IsSound c)))

  csi_char-IsSound : (c : ℕ) → IsSound shape (csi_char c s)
  unfolding csi_char
  csi_char-IsSound c =
      let g = enter-IsSound h ground_state in
      ground (
        arith,
        h.params_fit,
        h.inter_fit,
        length-append {0} s.params (c ∷ []),
        length-append {0} s.inter (c ∷ []),
        dispatch-InBounds c s.params s.inter h.bounds,
        g,
      )

  or_control-IsSound :
      (c : ℕ) {other : Screen} → IsSound shape other → IsSound shape (or_control c s other)
  or_control-IsSound c o = if_keep (IsSound shape) (c == 0x1b) (enter-IsSound h esc) (
      if_keep (IsSound shape) (ltb c 0x20)
        (on_display-IsSound h (control c) (control-InBounds c h.bounds)) o)

  or_cancel-IsSound :
      (c : ℕ) {other : Screen} → IsSound shape other → IsSound shape (or_cancel c s other)
  or_cancel-IsSound c o =
      if_keep (IsSound shape) (c == 0x18 || c == 0x1a) (enter-IsSound h ground_state) o

step_in-IsSound :
    {shape : Geometry} (m : Mode) (c : ℕ) {s : Screen}
    → IsSound shape s
    → IsSound shape (step_in m c s)
unfolding step_in
step_in-IsSound {shape} ground_state c h = ground_char-IsSound h c
step_in-IsSound {shape} osc_text c h = or_cancel-IsSound h c (string_char-IsSound h true c)
step_in-IsSound {shape} str_text c h = or_cancel-IsSound h c (string_char-IsSound h false c)
step_in-IsSound {shape} str_esc c h = or_cancel-IsSound h c (string_escape-IsSound h c)
step_in-IsSound {shape} esc c h =
    or_cancel-IsSound h c (or_control-IsSound h c (escape-IsSound h c))
step_in-IsSound {shape} esc_inter c h =
    or_cancel-IsSound h c (
      or_control-IsSound h c
        (if_keep (IsSound shape) (ltb 0x2f c) (enter-IsSound h ground_state) h))
step_in-IsSound {shape} csi c h =
    or_cancel-IsSound h c (or_control-IsSound h c (csi_char-IsSound h c))

pub run-IsSound :
    {shape : Geometry} (text : Str) {s : Screen} → IsSound shape s → IsSound shape (run s text)
unfolding run step
run-IsSound [] h = h
run-IsSound (c ∷ text) {s} h = run-IsSound text (step_in-IsSound s.state c h)

pub make_screen-IsSound : (g : Option Geometry) → IsSound (size g) (make_screen g)
unfolding make_screen
make_screen-IsSound g = record {
  bounds = new-InBounds g;
  params_fit = omega arith;
  inter_fit = omega arith;
  osc_fit = tt;
}

-- Whatever text the guest writes, at whatever geometry of the terminal, the cursor, the scroll
-- region and both buffers stay within the rows and columns, and what the parser has collected
-- stays within the source's limits (64 parameter characters, 8 intermediates, 1,024 units of an
-- OSC, which one character of two units may pass by one).
pub write-IsSound :
    {shape : Geometry} (g : Option Geometry) (text : Str) {s : Screen}
    → IsSound shape s
    → IsSound (size g) (write g s text)
unfolding write
write-IsSound g text h = run-IsSound text (record {
  bounds = fit-InBounds g h.bounds;
  params_fit = h.params_fit;
  inter_fit = h.inter_fit;
  osc_fit = h.osc_fit;
})
