-- ===== src/Tap/Idle.antt =====
-- When atPrompt calls the console idle, and when it cannot.
use bashtion_wasm.Base.{
  ◌≤◌, ◌≡◌, ◌≢◌, refl, ap, ◌∙◌, true, false, [], ◌∷◌, ◌++◌, none, some, All, arith, Bool-cases, inl,
  inr, Str,
}
use bashtion_wasm.Regex.{space, test}
use bashtion_wasm.Regex.Sound.{test-Found}
use bashtion_wasm.Screen.Cells.{ink}
use bashtion_wasm.Screen.Display.{Display}
use bashtion_wasm.Screen.Parser.{
  Screen, command, ground_state, is_start, is_shell, said_context, units, run,
}
use bashtion_wasm.Screen.Reading.{cursor_line}
use bashtion_wasm.Screen.Chunks.{run-append}
use bashtion_wasm.Screen.Context.{IsOscText, IsQuiet, run_osc, context-run}
use bashtion_wasm.Tap.{at_prompt_on}
use bashtion_wasm.Tap.Prompt.{IsPrompt, test-prompt}

abbrev IsBlank : Str → Type 0
IsBlank = All (λ c. space c ≡ true)

IsBlank-of_no_ink : (t : Str) → test ink t ≡ false → IsBlank t
IsBlank-of_no_ink [] e = tt
IsBlank-of_no_ink (c ∷ t) e = (first, IsBlank-of_no_ink t rest)
  where
    first : space c ≡ true
    first = elim (Bool-cases (space c)) [
      | inl sp ↦ sp
      | inr no_sp ↦
          absurd (cc (e, (test-Found ink (c ∷ t)).1 ([], c ∷ [], t, refl, (c, ground arith, refl))))
    ]

    rest : test ink t ≡ false
    rest = elim (Bool-cases (test ink t)) [
      | inr no_ink ↦ no_ink
      | inl has_ink ↦
          let (u, w, s, split, m) = (test-Found ink t).0 has_ink in
          absurd (cc (e, (test-Found ink (c ∷ t)).1 (c ∷ u, w, s, ap (c ∷◌) split, m)))
    ]

-- The console as atPrompt wants it.
pub record IsIdle (s : Screen) : Type 0 where
  pub not_command : s.context ≢ some command
  pub on_main_screen : s.display.alt ≡ none
  pub known : s.display.unsure ≡ false
  pub at_prompt_line : IsPrompt (cursor_line s.display).before
  pub nothing_typed : IsBlank (cursor_line s.display).after
  pub nothing_below : (cursor_line s.display).below ≡ false

sure_means : (d : Display) → (cursor_line d).sure ≡ true → (d.alt ≡ none) × (d.unsure ≡ false)
unfolding cursor_line
sure_means d e = ground arith

-- Where the page calls the console idle, the shell has not handed the terminal to a command, the
-- main screen is shown and its cursor's row known, the cursor's line up to the cursor is one whole
-- prompt, and there is only white space behind it and nothing on the rows below.
pub at_prompt_on-IsIdle : (s : Screen) → at_prompt_on s ≡ true → IsIdle s
unfolding at_prompt_on
at_prompt_on-IsIdle s e = record {
  not_command = λ c. ground arith;
  on_main_screen = (sure_means s.display (ground arith)).0;
  known = (sure_means s.display (ground arith)).1;
  at_prompt_line = (test-prompt (cursor_line s.display).before).0 (ground arith);
  nothing_typed = IsBlank-of_no_ink (cursor_line s.display).after (ground arith);
  nothing_below = ground arith;
}

busy_of_command : (s : Screen) → s.context ≡ some command → at_prompt_on s ≡ false
unfolding at_prompt_on
busy_of_command s e = rw e

-- From the moment that the shell says it hands the terminal to a command, nothing that the command
-- prints makes the console look idle, whatever its shape on the screen, until a string sequence (an
-- OSC, DCS, SOS, PM or APC) begins: characters, C0 controls, control sequences and other sequences of
-- ESC do not.
pub at_prompt_on-command :
    (s : Screen) (p text : Str)
    → s.state ≡ ground_state
    → IsOscText p
    → units p ≤ 1024
    → test is_start p ≡ true
    → test is_shell p ≡ false
    → IsQuiet text
    → at_prompt_on (run s ((0x1b ∷ b']' ∷ (p ++ (0x1b ∷ b'\\' ∷ []))) ++ text)) ≡ false
unfolding said_context
at_prompt_on-command s p text st h u start not_shell quiet =
    let announced = record s { state = ground_state; osc = some p; context = some command } in
    let read : run s (0x1b ∷ b']' ∷ (p ++ (0x1b ∷ b'\\' ∷ []))) ≡ announced =
      run_osc s p st h u ∙ ground arith in
    busy_of_command _ (
      ap (λ t. t.context) (run-append (0x1b ∷ b']' ∷ (p ++ (0x1b ∷ b'\\' ∷ []))) text s)
      ∙ ap (λ t. (run t text).context) read
      ∙ context-run text announced (inl refl) quiet)
