-- ===== src/Screen/Parser.antt =====
-- web/serialtap.js: said, escape and write, the states of the escape-sequence parser.
use bashtion_wasm.Base.{
  ℕ, ◌+◌, Bool, true, false, [], ◌∷◌, ◌++◌, Option, none, some, length, codes, ◌==◌, ltb, leb,
  within, ◌||◌, ◌&&◌, not, if◌then◌else◌, Str,
}
use bashtion_wasm.Regex.{Re, alt, char, lit, text_start, text_end, ◌⨾◌, test}
use bashtion_wasm.Screen.Width.{width}
use bashtion_wasm.Screen.Display.{Display, Geometry, reset}
use bashtion_wasm.Screen.Display
use bashtion_wasm.Screen.Motion.{
  print, control, save, restore, line_feed, carriage_return, reverse_index,
}
use bashtion_wasm.Screen.Fit.{fit}
use bashtion_wasm.Screen.Csi.{dispatch, is_none}

-- GROUND, ESC, ESC_INTER, CSI, OSC, STR and STR_ESC.
pub data Mode : Type 0 where
  ground_state esc esc_inter csi osc_text str_text str_esc : Mode

-- Whose the terminal is, as far as the guest's shell has said.
pub data Context : Type 0 where
  shell command : Context

pub record Screen : Type 0 where
  pub display : Display
  pub state : Mode
  pub params : Str
  pub inter : Str
  pub osc : Option Str
  pub context : Option Context

unfoldable pub make_screen : Option Geometry → Screen
make_screen g = record {
  display = Display.new g;
  state = ground_state;
  params = [];
  inter = [];
  osc = none;
  context = none;
}

-- `osc.length`, in UTF-16 units.
abbrev pub units : Str → ℕ
units [] = 0
units (c ∷ cs) = (if ltb c 0x10000 then 1 else 2) + units cs

-- `/^3008;start=/` and `/;type=shell(;|$)/`.
abbrev pub is_start : Re
is_start = text_start ⨾ lit (codes "3008;start=")

abbrev pub is_shell : Re
is_shell = lit (codes ";type=shell") ⨾ alt (char b';') text_end

unfoldable pub said_context : Str → Option Context → Option Context
said_context p old =
    if test is_start p then some (if test is_shell p then shell else command) else old

-- `state = GROUND; if (osc !== null) said(osc)`.
unfoldable pub end_string : Screen → Screen
end_string s = record s {
  state = ground_state;
  context = elim s.osc [ none ↦ s.context | some p ↦ said_context p s.context ];
}

abbrev pub on_display : (Display → Display) → Screen → Screen
on_display f s = record s { display = f s.display }

abbrev pub enter : Mode → Screen → Screen
enter m s = record s { state = m }

abbrev pub start_csi : Screen → Screen
start_csi s = record s { state = csi; params = []; inter = [] }

abbrev pub start_osc : Screen → Screen
start_osc s = record s { state = osc_text; osc = some [] }

abbrev pub start_str : Screen → Screen
start_str s = record s { state = str_text; osc = none }

unfoldable pub escape : ℕ → Screen → Screen
escape c s =
    let g = enter ground_state s in
    if c == b'['
    then start_csi s
    else if c == b']'
    then start_osc s
    else if c == b'P' || c == b'X' || c == b'^' || c == b'_'
    then start_str s
    else if c == b'7'
    then on_display save g
    else if c == b'8'
    then on_display restore g
    else if c == b'D'
    then on_display line_feed g
    else if c == b'E'
    then on_display (λ d. line_feed (carriage_return d)) g
    else if c == b'M'
    then on_display reverse_index g
    else if c == b'c'
    then on_display reset g
    else if within 0x20 0x2f c
    then enter esc_inter s
    else g

-- A character outside any sequence.
unfoldable pub ground_char : ℕ → Screen → Screen
ground_char c s =
    if leb 0x20 c && not (c == 0x7f) && (ltb c 0x80 || leb 0xa0 c)
    then on_display (print c (width c)) s
    else if c == 0x1b
    then enter esc s
    else if c == 0x9b
    then start_csi s
    else if c == 0x9d
    then start_osc s
    else if c == 0x90 || c == 0x98 || c == 0x9e || c == 0x9f
    then start_str s
    else on_display (control c) s

abbrev pub append_osc : ℕ → Option Str → Option Str
append_osc c none = none
append_osc c (some p) = if leb 0x20 c && ltb (units p) 1024 then some (p ++ (c ∷ [])) else some p

-- A character of an OSC (`bel_ends`), or of a DCS, SOS, PM or APC.
unfoldable pub string_char : Bool → ℕ → Screen → Screen
string_char bel_ends c s =
    if c == 0x9c || (c == 0x07 && bel_ends)
    then end_string s
    else if c == 0x1b
    then enter str_esc s
    else record s { osc = append_osc c s.osc }

-- The character behind an ESC in one of those.
unfoldable pub string_escape : ℕ → Screen → Screen
string_escape c s =
    if c == b'\\'
    then end_string s
    else if c == 0x1b
    then enter esc s
    else if ltb c 0x20
    then on_display (control c) (enter esc s)
    else escape c s

-- What ESC and the C0 controls do within ESC, ESC_INTER and CSI; `other` takes any further character.
abbrev pub or_control : ℕ → Screen → Screen → Screen
or_control c s other =
    if c == 0x1b then enter esc s else if ltb c 0x20 then on_display (control c) s else other

unfoldable pub csi_char : ℕ → Screen → Screen
csi_char c s =
    let g = enter ground_state s in
    if within 0x30 0x3f c && is_none s.inter && ltb (length s.params) 64
    then record s { params = s.params ++ (c ∷ []) }
    else if within 0x20 0x2f c && ltb (length s.inter) 8
    then record s { inter = s.inter ++ (c ∷ []) }
    else if within 0x40 0x7e c
    then on_display (dispatch c s.params s.inter) g
    else g

-- CAN and SUB abandon a sequence.
abbrev pub or_cancel : ℕ → Screen → Screen → Screen
or_cancel c s other = if c == 0x18 || c == 0x1a then enter ground_state s else other

unfoldable pub step_in : Mode → ℕ → Screen → Screen
step_in ground_state c s = ground_char c s
step_in osc_text c s = or_cancel c s (string_char true c s)
step_in str_text c s = or_cancel c s (string_char false c s)
step_in str_esc c s = or_cancel c s (string_escape c s)
step_in esc c s = or_cancel c s (or_control c s (escape c s))
step_in esc_inter c s =
    or_cancel c s (or_control c s (if ltb 0x2f c then enter ground_state s else s))
step_in csi c s = or_cancel c s (or_control c s (csi_char c s))

unfoldable pub step : Screen → ℕ → Screen
step s c = step_in s.state c s

-- The loop of `write`.
unfoldable pub run : Screen → Str → Screen
run s [] = s
run s (c ∷ cs) = run (step s c) cs

unfoldable pub write : Option Geometry → Screen → Str → Screen
write g s text = run (on_display (fit g) s) text
