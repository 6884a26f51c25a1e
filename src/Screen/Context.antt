-- ===== src/Screen/Context.antt =====
-- What the guest's shell says about whose the terminal is, and which text leaves that as it was.
use mathlib.Core.List.{append-nil, append_assoc}
use bashtion_wasm.Base.{
  ℕ, ◌+◌, ◌≤◌, ◌≡◌, ◌≢◌, ◌⊎◌, refl, sym, ap, ◌∙◌, [], ◌∷◌, ◌++◌, some, All, arith, Str, Bool, true,
  false, ◌==◌, ◌||◌, ◌&&◌, not, ltb,
}
use bashtion_wasm.Screen.Parser.{
  Mode, ground_state, esc, esc_inter, csi, osc_text, Screen, units, said_context, end_string,
  escape, ground_char, string_char, string_escape, csi_char, step_in, step, run,
}
use bashtion_wasm.Screen.Bounds.Parser.{units-append}
use bashtion_wasm.Screen.Chunks.{run-append}

-- Characters of which an OSC is made: not a control character, and not ST.
abbrev pub IsOscText : Str → Type 0
IsOscText = All (λ c. (0x20 ≤ c) × (c ≢ 0x9c))

-- A screen that has read `p` of an OSC.
abbrev in_osc : Screen → Str → Screen
in_osc s p = record s { state = osc_text; osc = some p }

osc_char :
    (s : Screen) (c : ℕ) (p : Str)
    → 0x20 ≤ c
    → c ≢ 0x9c
    → units p + 1 ≤ 1024
    → step (in_osc s p) c ≡ in_osc s (p ++ (c ∷ []))
unfolding step step_in string_char
osc_char s c p lo st u = ground arith

units_first : (p q : Str) (c : ℕ) → units (p ++ (c ∷ q)) ≤ 1024 → units p + 1 ≤ 1024
units_first p q c u = ground (arith, units-append p (c ∷ q))

run-in_osc :
    (q : Str) (s : Screen) (p : Str)
    → IsOscText q
    → units (p ++ q) ≤ 1024
    → run (in_osc s p) q ≡ in_osc s (p ++ q)
unfolding run
run-in_osc [] s p h u = ap (in_osc s) (sym (append-nil p))
run-in_osc (c ∷ q) s p h u =
    ap (λ t. run t q) (osc_char s c p h.0.0 h.0.1 (units_first p q c u))
    ∙ run-in_osc q s (p ++ (c ∷ [])) h.1 (rw append_assoc u)
    ∙ ap (in_osc s) (append_assoc p (c ∷ []) q)

osc_start :
    (s : Screen) (p : Str) → s.state ≡ ground_state → run s (0x1b ∷ b']' ∷ p) ≡ run (in_osc s []) p
unfolding run step step_in ground_char escape
osc_start s p st = rw st

osc_end :
    (s : Screen) (p : Str)
    → run (in_osc s p) (0x1b ∷ b'\\' ∷ [])
      ≡ record s { state = ground_state; osc = some p; context = said_context p s.context }
unfolding run step step_in string_char string_escape end_string
osc_end s p = refl

-- An OSC, from ESC ] to ST, is read for what the shell says in it, and that is all it does: nothing
-- of it reaches the screen, whatever it holds, as long as it is within the 1,024 units that are kept.
pub run_osc :
    (s : Screen) (p : Str)
    → s.state ≡ ground_state
    → IsOscText p
    → units p ≤ 1024
    → run s (0x1b ∷ b']' ∷ (p ++ (0x1b ∷ b'\\' ∷ [])))
      ≡ record s { state = ground_state; osc = some p; context = said_context p s.context }
run_osc s p st h u =
    osc_start s _ st
    ∙ run-append p (0x1b ∷ b'\\' ∷ []) (in_osc s [])
    ∙ ap (λ t. run t (0x1b ∷ b'\\' ∷ [])) (run-in_osc p s [] h u)
    ∙ osc_end s p

-- What begins a string sequence: an eight-bit control, or the final character of an ESC sequence.
abbrev pub begins_string : Bool → ℕ → Bool
begins_string false c = c == 0x9d || (c == 0x90 || (c == 0x98 || (c == 0x9e || c == 0x9f)))
begins_string true c = c == b']' || (c == b'P' || (c == b'X' || (c == b'^' || c == b'_')))

-- Whether an ESC still waits for its character behind this one. C0 controls do not end the wait, but
-- CAN and SUB do.
abbrev pub behind_esc : Bool → ℕ → Bool
behind_esc false c = c == 0x1b
behind_esc true c = c == 0x1b || (ltb c 0x20 && not (c == 0x18 || c == 0x1a))

abbrev pub IsQuietFrom : Bool → Str → Type 0
IsQuietFrom waiting [] = Unit
IsQuietFrom waiting (c ∷ text) =
    (begins_string waiting c ≡ false) × IsQuietFrom (behind_esc waiting c) text

-- Text that begins no string sequence: any characters, C0 controls, control sequences and other
-- sequences of ESC, but no OSC, DCS, SOS, PM or APC.
abbrev pub IsQuiet : Str → Type 0
IsQuiet = IsQuietFrom false

abbrev pub OutsideStrings : Mode → Type 0
OutsideStrings m = (m ≡ ground_state) ⊎ ((m ≡ csi) ⊎ (m ≡ esc_inter))

abbrev Waits : Bool → Mode → Type 0
Waits false m = OutsideStrings m
Waits true m = m ≡ esc

record Same (waiting : Bool) (s t : Screen) : Type 0 where
  outside : Waits waiting t.state
  context_is : t.context ≡ s.context

step_outside-Same :
    (s : Screen) (c : ℕ)
    → OutsideStrings s.state
    → begins_string false c ≡ false
    → Same (behind_esc false c) s (step s c)
unfolding step step_in ground_char csi_char
step_outside-Same s c o q = ground arith

step_waiting-Same :
    (s : Screen) (c : ℕ)
    → s.state ≡ esc
    → begins_string true c ≡ false
    → Same (behind_esc true c) s (step s c)
unfolding step step_in escape
step_waiting-Same s c o q = ground arith

step-Same :
    (waiting : Bool) (s : Screen) (c : ℕ)
    → Waits waiting s.state
    → begins_string waiting c ≡ false
    → Same (behind_esc waiting c) s (step s c)
step-Same false s c o q = step_outside-Same s c o q
step-Same true s c o q = step_waiting-Same s c o q

run_context :
    (text : Str) (waiting : Bool) (s : Screen)
    → Waits waiting s.state
    → IsQuietFrom waiting text
    → (run s text).context ≡ s.context
unfolding run
run_context [] waiting s o q = refl
run_context (c ∷ text) waiting s o q =
    let first = step-Same waiting s c o q.0 in
    run_context text (behind_esc waiting c) (step s c) first.outside q.1 ∙ first.context_is

-- From outside the string sequences, text that begins none of them leaves whose the terminal is: it
-- may hold any characters, C0 controls, control sequences in seven or eight bits, and other sequences
-- of ESC, cut off or not, whatever they put on the screen.
pub context-run :
    (text : Str) (s : Screen)
    → OutsideStrings s.state
    → IsQuiet text
    → (run s text).context ≡ s.context
context-run text s o q = run_context text false s o q
