-- ===== src/Tap.antt =====
-- web/serialtap.js: strip, install, screenOf and atPrompt. `window.__serial` is the record of the
-- console; the decoder and the terminal widget are the browser's.
pub mod Prompt
pub mod Mirror
pub mod Idle
use bashtion_wasm.Base.{
  ℕ, ◌+◌, Bool, true, false, List, [], ◌∷◌, ◌++◌, Option, none, some, codes, not, ◌==◌, ◌||◌, ◌&&◌,
  within, if◌then◌else◌, Str, str_eq,
}
use bashtion_wasm.Regex.{
  Re, Class, one, many, alt, char, lit, many1, space, letter, digit, eps, text_start, text_end, ◌⨾◌,
  test, remove_all,
}
use bashtion_wasm.Screen.Cells.{ink}
use bashtion_wasm.Screen.Display.{Geometry}
use bashtion_wasm.Screen.Parser.{Screen, Context, shell, command, make_screen, write}
use bashtion_wasm.Screen.Reading.{CursorLine, cursor_line, lines, last_line}

-- `/\x1b\][^\x07\x1b]*(\x07|\x1b\\)/g` and `/\x1b\[[0-9;?]*[A-Za-z]/g`.
abbrev pub osc : Re
osc =
    char 0x1b
    ⨾ char b']'
    ⨾ many (λ c. not (c == 0x07 || c == 0x1b))
    ⨾ alt (char 0x07) (char 0x1b ⨾ char b'\\')

abbrev pub csi : Re
csi = char 0x1b ⨾ char b'[' ⨾ many (λ c. digit c || c == b';' || c == b'?') ⨾ one letter

unfoldable pub strip : Str → Str
strip s = remove_all csi (remove_all osc s)

-- What `live` holds for a window.
pub record Tap : Type 0 where
  pub text : Str
  pub screen : Screen

-- The window's mirror, and its tap.
pub record Page : Type 0 where
  pub serial : Str
  pub tap : Tap

abbrev pub tap_on : Option Geometry → Tap
tap_on g = record { text = []; screen = make_screen g }

unfoldable pub install : Option Geometry → Page
install g = record { serial = []; tap = tap_on g }

-- `makeScreen(geometryOf(w))` with the mirror written to it.
abbrev pub rebuilt : Option Geometry → Str → Screen
rebuilt g s = write g (make_screen g) s

-- The handler that install() gives `master.onWrite`, for a chunk that is decoded.
unfoldable pub on_write : Option Geometry → Page → Str → Page
on_write g p s =
    let screen = if str_eq p.serial p.tap.text then p.tap.screen else rebuilt g p.serial in
    let serial = p.serial ++ s in
    record { serial = serial; tap = record { text = serial; screen = write g screen s } }

unfoldable pub screen_of : Option Geometry → Page → Screen
screen_of g p = if str_eq p.serial p.tap.text then p.tap.screen else rebuilt g p.serial

-- `[$#]`.
abbrev pub mark : Class
mark c = c == b'$' || c == b'#'

abbrev pub not_space : Class
not_space c = not (space c)

-- `[^\s@$#]`, `[^\s:$#]` and `[^$#]`.
abbrev pub user_char : Class
user_char c = not (space c || c == b'@' || mark c)

abbrev pub host_char : Class
host_char c = not (space c || c == b':' || mark c)

abbrev pub dir_char : Class
dir_char c = not (mark c)

-- `(?:\S*|[^\s@$#]+@[^\s:$#]+:[^$#]*)`.
abbrev pub prompt_head : Re
prompt_head =
    alt (many not_space) (many1 user_char ⨾ char b'@' ⨾ many1 host_char ⨾ char b':' ⨾ many dir_char)

-- `/^(?:...)[$#] $/`.
abbrev pub prompt : Re
prompt = text_start ⨾ prompt_head ⨾ one mark ⨾ char b' ' ⨾ text_end

abbrev pub may_be_shell : Option Context → Bool
may_be_shell none = true
may_be_shell (some shell) = true
may_be_shell (some command) = false

unfoldable pub at_prompt_on : Screen → Bool
at_prompt_on s =
    let c = cursor_line s.display in
    may_be_shell s.context
    && (c.sure && (test prompt c.before && (not (test ink c.after) && not c.below)))

unfoldable pub at_prompt : Option Geometry → Page → Bool
at_prompt g p = at_prompt_on (screen_of g p)

-- `screen` and `lastLine` of the interface.
unfoldable pub screen_lines : Option Geometry → Page → List Str
screen_lines g p = lines (screen_of g p).display

unfoldable pub page_last_line : Option Geometry → Page → Str
page_last_line g p = last_line (screen_of g p).display
