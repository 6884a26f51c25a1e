-- ===== src/Tests/Size.antt =====
-- The theorem on telling the geometry, applied to a window that is resized while a command runs.
use bashtion_wasm.Base.{true, false, [], ◌∷◌, ◌++◌, some, replicate, refl}
use bashtion_wasm.Screen.Display.{Geometry}
use bashtion_wasm.Sync.{start, requested, fired, run}
use bashtion_wasm.Sync.Delivery.{Delivered, run-Delivered}

abbrev wide : Geometry
wide = record { cols = 132; rows = 43 }

run-Delivered_example : Delivered start wide (
    run start (
      requested (some wide) false
      ∷ (replicate 2 (fired (some wide) false) ++ (fired (some wide) true ∷ []))))
run-Delivered_example = run-Delivered 2 start wide refl
