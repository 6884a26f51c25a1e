-- ===== src/Boot.antt =====
-- web/bootscreen.js: the cover over the terminal while the machine starts; and web/fork/boot.js, when the page
-- may type the geometry. A poll, or a glance, is what one round of an interval observes: its answers, and
-- the readings of the clock in their order.
pub mod Lift
pub mod Settle
pub mod Idle
use bashtion_wasm.Base.{
  ℕ, zero, suc, ◌+◌, ◌-◌, ◌*◌, Bool, true, false, not, ◌&&◌, ◌||◌, List, [], ◌∷◌, ◌++◌, Option,
  none, some, codes, ltb, ◌==◌, Str, if◌then◌else◌,
}
use bashtion_wasm.Screen.Display.{Geometry}
use bashtion_wasm.Sync.{Sync, seed, unusable, request, fire}
use bashtion_wasm.Regex.{Re, many, char, lit, digit, ◌⨾◌, test}
use bashtion_wasm.Tap.{Page, at_prompt, strip}
use bashtion_wasm.Transfer.Shell.{decimal}
use bashtion_wasm.Window.{Dimensions, Box, fit_window}

pub record Poll : Type 0 where
  pub prompt : Bool
  pub at_prompt_since : ℕ
  pub at_held : ℕ
  pub at_cap : ℕ

abbrev pub prompt_ms : ℕ
prompt_ms = 1200

abbrev pub cover_ms : ℕ
cover_ms = 30 * 60 * 1000

-- `promptSince`, zero where there is no prompt.
abbrev pub since_next : ℕ → Poll → ℕ
since_next since p = if p.prompt then (if since == 0 then p.at_prompt_since else since) else 0

abbrev pub held : ℕ → Poll → Bool
held since p = p.prompt && ltb prompt_ms (p.at_held - since_next since p)

abbrev pub overdue : ℕ → Poll → Bool
overdue t0 p = ltb cover_ms (p.at_cap - t0)

-- The interval of `start`, from the poll `i` on: the poll that calls reveal(), if one of them does.
unfoldable pub lifts_from : (ℕ → Poll) → ℕ → ℕ → ℕ → ℕ → Option ℕ
lifts_from polls t0 zero i since = none
lifts_from polls t0 (suc rounds) i since =
    let later = lifts_from polls t0 rounds (i + 1) (since_next since (polls i)) in
    if held since (polls i) || overdue t0 (polls i) then some i else later

-- What a round of the interval of `reveal` observes: the mirror from `from` on, atPrompt, and the clock.
pub record Glance : Type 0 where
  pub since : Str
  pub prompt : Bool
  pub at_limit : ℕ

abbrev pub settle_ms : ℕ
settle_ms = 15000

-- `/\x1b\[[0-9;]*J/`.
abbrev pub erasing : Re
erasing = char 0x1b ⨾ char b'[' ⨾ many (λ c. digit c || c == b';') ⨾ char b'J'

-- Whether the handover's `clear` has run; `indexOf` of a text is a search for it.
unfoldable pub ran : Str → Bool
ran since = test erasing since || test (lit (codes "clear")) (strip since)

unfoldable pub back : Glance → Bool
back g = ran g.since && g.prompt

-- `t0` is here the time at which reveal() was called.
abbrev pub settled : ℕ → Glance → Bool
settled t0 g = back g || not (ltb (g.at_limit - t0) settle_ms)

-- The interval of `reveal`, from the glance `i` on: the one that takes the cover away, if one of them
-- does.
unfoldable pub uncovers_from : (ℕ → Glance) → ℕ → ℕ → ℕ → Option ℕ
uncovers_from glances t0 zero i = none
uncovers_from glances t0 (suc rounds) i =
    let later = uncovers_from glances t0 rounds (i + 1) in
    if settled t0 (glances i) then some i else later

-- What starts where the poll `i` calls reveal(): the time of that, and the glances from then on.
pub record Reveal : Type 0 where
  pub at : ℕ
  pub glances : ℕ → Glance

unfoldable pub uncovers_after : (ℕ → Reveal) → ℕ → Option ℕ → Option (ℕ × ℕ)
uncovers_after reveals rounds none = none
uncovers_after reveals rounds (some i) =
    elim (uncovers_from (reveals i).glances (reveals i).at rounds 0) [
      | none ↦ none
      | some j ↦ some (i, j)
    ]

-- Both intervals: the poll that calls reveal(), and the glance that takes the cover away.
unfoldable pub uncovers : (ℕ → Poll) → ℕ → (ℕ → Reveal) → ℕ → ℕ → Option (ℕ × ℕ)
uncovers polls t0 reveals rounds settling =
    uncovers_after reveals settling (lifts_from polls t0 rounds 0 0)

-- TERMFIT.stty.
abbrev pub stty : Geometry → Str
stty g = codes "stty rows " ++ (decimal g.rows ++ (codes " cols " ++ decimal g.cols))

abbrev pub clock_line : ℕ → Str
clock_line epoch =
    codes "sudo date -u -s @"
    ++ (decimal epoch ++ codes " >/dev/null 2>&1; sudo hwclock --systohc >/dev/null 2>&1")

abbrev pub greeting : Str
greeting = codes "; clear; cat /etc/motd 2>/dev/null\n"

-- The text of `handover`, and what makeSync is told: a geometry without columns or rows is left out.
unfoldable pub handover : ℕ → Option Geometry → Sync → Str × Sync
handover epoch none s = (clock_line epoch ++ greeting, s)
handover epoch (some g) s =
    if unusable (some g)
    then (clock_line epoch ++ greeting, s)
    else (clock_line epoch ++ (codes "; " ++ (stty g ++ greeting)), seed (some g) s)

-- `revealed`, `window.__booted`, and what was typed, the latest first.
pub record Cover : Type 0 where
  pub revealed : Bool
  pub booted : Bool
  pub typed : List Str
  pub sync : Sync

-- `reveal`: a paste that throws is ignored.
unfoldable pub reveal : Bool → ℕ → Option Geometry → Cover → Cover
reveal throws epoch g c =
    let text = handover epoch g c.sync in
    if c.revealed then c else record {
      revealed = true;
      booted = true;
      typed = if throws then c.typed else text.0 ∷ c.typed;
      sync = text.1;
    }

-- `canSend` of boot.js.
abbrev pub can_send : Bool → Bool → Option Geometry → Page → Bool
can_send booted busy g p = booted && (not busy && at_prompt g p)

-- The events of makeSync as boot.js wires it: a resize of the window that has settled, which fits the
-- terminal first, and the timer of a retry.
unfoldable pub on_resize :
    Bool → Bool → Option Dimensions → Option Box → Geometry → Page → Sync → Geometry × Sync
on_resize booted busy d b term p s =
    let g = (fit_window d b term).term in (g, request (some g) (can_send booted busy (some g) p) s)

unfoldable pub on_retry : Bool → Bool → Geometry → Page → Sync → Sync
on_retry booted busy term p s = fire (some term) (can_send booted busy (some term) p) s
