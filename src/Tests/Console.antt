-- ===== src/Tests/Console.antt =====
-- The theorems on the console, applied to a terminal of 20 columns and 2 rows.
use bashtion_wasm.Base.{
  inl, ◌↔◌, ◌≡◌, refl, true, false, [], ◌∷◌, ◌++◌, Option, none, some, codes, Str, arith,
}
use bashtion_wasm.Regex
use bashtion_wasm.Regex.{exec_from, exec, test}
use bashtion_wasm.Screen.Width.{is_zero_width, is_wide, width}
use bashtion_wasm.Screen.Cells.{text_run, blank, mend_left, mend_right, erase, put}
use bashtion_wasm.Screen.Cells
use bashtion_wasm.Screen.Display.{
  Geometry, dimension, size, buffer, with_buf, set_line, set_cells, reset, declared,
}
use bashtion_wasm.Screen.Display
use bashtion_wasm.Screen.Motion.{make_room, write_cells, place_char, print}
use bashtion_wasm.Screen.Fit.{fit}
use bashtion_wasm.Screen.Parser.{Screen, make_screen, ground_char, step_in, step, run, write}
use bashtion_wasm.Screen.Reading.{first_row, wrapped_run, last_row, rows_text, any_ink, cursor_line}
use bashtion_wasm.Screen.Parser.{ground_state, said_context}
use bashtion_wasm.Screen.Bounds.Parser.{IsSound, make_screen-IsSound, write-IsSound}
use bashtion_wasm.Screen.Whole.Rows.{IsWhole}
use bashtion_wasm.Screen.Whole.Parser.{make_screen-Whole, write-IsWhole}
use bashtion_wasm.Screen.Chunks.{write-append}
use bashtion_wasm.Screen.Context.{run_osc, context-run}
use bashtion_wasm.Screen.Typing.Echo.{before-run}
use bashtion_wasm.Tap.{prompt}
use bashtion_wasm.Tap.Prompt.{IsPrompt, test-prompt}
use bashtion_wasm.Tap.Idle.{at_prompt_on-command}
use bashtion_wasm.Tap.{install, rebuilt, screen_of, at_prompt_on}
use bashtion_wasm.Tap.Mirror.{chunk, replace, session, screen_of-session}
use bashtion_wasm.Tap.Idle.{IsIdle, at_prompt_on-IsIdle}

abbrev small : Option Geometry
small = some (record { cols = 20; rows = 2 })

abbrev idle : Screen
idle = write small (make_screen small) (codes "me@box:~$ ")

idle-at_prompt : at_prompt_on idle ≡ true
unfolding at_prompt_on cursor_line first_row wrapped_run last_row rows_text any_ink write run step
    step_in ground_char print place_char write_cells make_room with_buf set_line set_cells put erase
    mend_left mend_right blank text_run width is_zero_width is_wide make_screen Display.new declared
    reset buffer size dimension fit test exec exec_from Regex.run Cells.text
idle-at_prompt = refl

at_prompt_on-IsIdle_example : IsIdle idle
at_prompt_on-IsIdle_example = at_prompt_on-IsIdle idle idle-at_prompt

abbrev started : Screen
started = make_screen small

-- A wide character, a combining mark and a control sequence.
abbrev output : Str
output = 0x4e2d ∷ 0x301 ∷ codes "\t ok" ++ (0x1b ∷ codes "[2J")

screen_of-session_example :
    screen_of small
      (session small (install small) (chunk output ∷ replace (codes "log") ∷ chunk output ∷ []))
    ≡ rebuilt small
        (session small
          (install small)
          (chunk output ∷ replace (codes "log") ∷ chunk output ∷ [])).serial
screen_of-session_example =
    screen_of-session small (chunk output ∷ replace (codes "log") ∷ chunk output ∷ [])

-- A full-screen program draws the shape of a prompt.
abbrev redrawn : Str
redrawn =
    (0x1b ∷ codes "[2J") ++ ((0x1b ∷ codes "[1;1H") ++ ((0x1b ∷ codes "(B") ++ codes "me@box:~$ "))

at_prompt_on-command_example :
    at_prompt_on (
      run started
        ((0x1b ∷ b']' ∷ (codes "3008;start=1;type=command" ++ (0x1b ∷ b'\\' ∷ []))) ++ redrawn))
    ≡ false
unfolding make_screen test exec exec_from Regex.run
at_prompt_on-command_example =
    at_prompt_on-command started (codes "3008;start=1;type=command") redrawn refl (ground arith)
      (omega arith) refl refl (ground arith)

test-prompt_example : (test prompt (codes "me@box:~$ ") ≡ true) ↔ IsPrompt (codes "me@box:~$ ")
test-prompt_example = test-prompt (codes "me@box:~$ ")

write-IsSound_example : IsSound (size none) (write none started output)
write-IsSound_example = write-IsSound none output (make_screen-IsSound small)

write-IsWhole_example : IsWhole (write none started output).display
write-IsWhole_example = write-IsWhole none output started (make_screen-Whole small)

write-append_example :
    write small started (output ++ output) ≡ write small (write small started output) output
write-append_example = write-append small output output (make_screen-IsSound small)

run_osc_example :
    run started (0x1b ∷ b']' ∷ (codes "3008;end=1" ++ (0x1b ∷ b'\\' ∷ []))) ≡ record started {
      state = ground_state;
      osc = some (codes "3008;end=1");
      context = said_context (codes "3008;end=1") started.context;
    }
unfolding make_screen
run_osc_example = run_osc started (codes "3008;end=1") refl (ground arith) (omega arith)

context-run_example : (run started redrawn).context ≡ started.context
unfolding make_screen
context-run_example = context-run redrawn started (inl refl) (ground arith)

before-run_example :
    (cursor_line (run started (codes "ls")).display).before
    ≡ (cursor_line started.display).before ++ codes "ls"
unfolding make_screen Display.new declared reset buffer size dimension
before-run_example =
    before-run (codes "ls") started
      (record {
        sound = make_screen-IsSound small;
        in_ground = refl;
        overwriting = refl;
        room = omega arith;
        at_end = omega arith;
      })
      (ground arith)
