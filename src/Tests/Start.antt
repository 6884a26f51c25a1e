-- ===== src/Tests/Start.antt =====
-- The theorems on waiting, on the cover and on the size of the grid, applied to short runs.
use bashtion_wasm.Base.{
  ℕ, ◌+◌, ◌*◌, ◌≡◌, ◌⊎◌, refl, arith, true, false, Option, none, some, codes, ltb, ◌∷◌, ◌++◌,
}
use bashtion_wasm.Screen.Display.{Geometry}
use bashtion_wasm.Sync.{start}
use bashtion_wasm.Tap.{install}
use bashtion_wasm.Transfer.Wait.{
  Timeouts, Tick, gave_up, wait_for, wait_from, turn, look_again, check_limits,
}
use bashtion_wasm.Transfer.Wait.Limits.{Settles, wait_for-Settles}
use bashtion_wasm.Transfer.Wait.Silence.{Silent, Overdue, wait_for-gave_up}
use bashtion_wasm.Window.{Dimensions, Box, fit_window}
use bashtion_wasm.Window.Grid.{IsFit, fit_window-IsFit}
use bashtion_wasm.Boot.{Poll, Reveal, lifts_from, uncovers, on_resize, on_retry}
use bashtion_wasm.Boot.Lift.{Rested, Late, lifts_from-Rested}
use bashtion_wasm.Boot.Settle.{Uncovered, uncovers-Uncovered}
use bashtion_wasm.Boot.Idle.{SentIf, MayType, resize-MayType}

-- A guest that prints nothing.
abbrev still : ℕ → Tick ℕ
still i = record {
  found = none;
  length = 0;
  at_growth = 200 * i;
  at_idle = 200 * i;
  at_hard = 200 * i;
}

abbrev untouched : Timeouts
untouched = record { idle = none; work = none; hard = none; hard_work = none }

abbrev hurried : Timeouts
hurried = record { idle = some 300; work = none; hard = none; hard_work = none }

wait_for-Settles_example : Settles (wait_for untouched none (some 900) 0 0 6 still)
wait_for-Settles_example = wait_for-Settles untouched none (some 900) 0 0 still (λ i. omega arith)

stopped : wait_for hurried none none 0 0 3 still ≡ gave_up
unfolding wait_from turn look_again check_limits
stopped = refl

wait_for-gave_up_example : (i : ℕ) × (Silent still 300 0 i ⊎ Overdue still 900000 0 i)
wait_for-gave_up_example = wait_for-gave_up hurried none none 0 0 3 still stopped

abbrev dark : ℕ → Poll
dark i = record { prompt = false; at_prompt_since = 500 * i; at_held = 500 * i; at_cap = 500 * i }

abbrev ready_at_once : ℕ → Poll
ready_at_once i = record {
  prompt = true;
  at_prompt_since = 500 * i;
  at_held = 500 * i;
  at_cap = 500 * i;
}

-- A handover that takes two rounds to come back.
abbrev handed_over : ℕ → Reveal
handed_over i = record {
  at = 500 * i;
  glances = λ j. record {
    since = 0x1b ∷ codes "[H" ++ (0x1b ∷ codes "[2Jme@box:~$ ");
    prompt = ltb 1 j;
    at_limit = 500 * i + 250 * j;
  };
}

uncovers-Uncovered_example : Uncovered dark 0 handed_over (uncovers dark 0 handed_over 3602 61)
uncovers-Uncovered_example =
    uncovers-Uncovered dark 0 handed_over (λ i. omega arith) (λ i j. omega arith)

lifted_by_four : lifts_from ready_at_once 0 5 0 0 ≡ some 4
unfolding lifts_from
lifted_by_four = refl

lifts_from-Rested_example : Rested ready_at_once 0 4 ⊎ Late ready_at_once 0 4
lifts_from-Rested_example = lifts_from-Rested ready_at_once 0 5 4 lifted_by_four

-- Cells of 8.4 by 17 pixels, as the renderer of xterm 4 gives them.
abbrev renderer : Option Dimensions
renderer = some (record {
  actual =
      some (record { w = record { over = 84; under = 10 }; h = record { over = 17; under = 1 } });
  css = none;
})

abbrev element : Box
element = record {
  width = 1000;
  height = 600;
  left = 4;
  right = 4;
  top = 4;
  bottom = 4;
  scrollbar = 15;
}

abbrev grid : Geometry
grid = record { cols = 116; rows = 34 }

abbrev narrow : Geometry
narrow = record { cols = 80; rows = 24 }

fit_window-IsFit_example :
    IsFit renderer (some element) narrow (fit_window renderer (some element) narrow)
fit_window-IsFit_example = fit_window-IsFit renderer (some element) narrow

resize-MayType_example :
    SentIf
      (MayType true false
        (some (fit_window renderer (some element) narrow).term)
        (install (some narrow)))
      start
      (on_resize true false renderer (some element) narrow (install (some narrow)) start).1
    × SentIf
        (MayType true false (some narrow) (install (some narrow)))
        start
        (on_retry true false narrow (install (some narrow)) start)
resize-MayType_example =
    resize-MayType true false renderer (some element) narrow (install (some narrow)) start
