-- ===== src/Screen/Chunks.antt =====
-- The screen does not depend on how the record of the console is cut into chunks.
use bashtion_wasm.Base.{◌≡◌, refl, sym, ◌∙◌, ap, [], ◌∷◌, ◌++◌, Option, arith, Str}
use bashtion_wasm.Screen.Display.{Display, Geometry, size}
use bashtion_wasm.Screen.Fit.{fit}
use bashtion_wasm.Screen.Parser.{Screen, on_display, run, write}
use bashtion_wasm.Screen.Bounds.{InBounds}
use bashtion_wasm.Screen.Bounds.Parser.{IsSound, write-IsSound}

-- At the geometry that it has, a display is left alone.
pub fit_same : (g : Option Geometry) {d : Display} → InBounds (size g) d → fit g d ≡ d
unfolding fit
fit_same g {d} h = ground (arith, h.cols_is, h.rows_is)

pub run-append : (a b : Str) (s : Screen) → run s (a ++ b) ≡ run (run s a) b
unfolding run
run-append [] b s = refl
run-append (c ∷ a) b s = run-append a b _

fitted : (g : Option Geometry) {s : Screen} → IsSound (size g) s → on_display (fit g) s ≡ s
fitted g {s} h = ap (λ d. record s { display = d }) (fit_same g h.bounds)

-- Text written in two chunks at one geometry gives the screen that it gives at once: no escape
-- sequence, wide character or deferred wrap is lost at a chunk's edge.
pub write-append :
    {shape : Geometry} (g : Option Geometry) (a b : Str) {s : Screen}
    → IsSound shape s
    → write g s (a ++ b) ≡ write g (write g s a) b
unfolding write
write-append g a b {s} h =
    run-append a b (on_display (fit g) s) ∙ ap (λ t. run t b) (sym (fitted g (write-IsSound g a h)))

pub write-nil : (g : Option Geometry) {s : Screen} → IsSound (size g) s → write g s [] ≡ s
unfolding write run
write-nil g h = fitted g h
