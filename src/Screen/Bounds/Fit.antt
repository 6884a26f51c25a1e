-- ===== src/Screen/Bounds/Fit.antt =====
-- A resize gives every buffer the rows asked for, and keeps the cursor on the screen.
use mathlib.Core.Path.{subst}
use bashtion_wasm.Base.{
  Option-cases, ℕ, zero, suc, ◌+◌, ◌-◌, ◌≤◌, ◌<◌, ◌≡◌, refl, Bool, true, false, [], ◌∷◌, Option,
  length-pop, length-append, arith, Bool-cases, inl, inr, ◌==◌, ◌&&◌,
}
use bashtion_wasm.Screen.Cells.{new_row}
use bashtion_wasm.Screen.Display.{Geometry, Display, size}
use bashtion_wasm.Screen.Fit.{
  Sized, height, grow_row, shrink_row, grow, shrink, resize, sized, fit_buffers, adopt, fit,
}
use bashtion_wasm.Screen.Bounds.{Holds, AltHolds, InBounds, size_min}

-- A buffer of `rows` screen lines, with the cursor on one of them where it is the active one.
record Upright (active : Bool) (rows : ℕ) (s : Sized) : Type 0 where
  holds : Holds rows s.held
  on_screen : active ≡ true → s.y < rows

grow_row-Upright :
    (active : Bool) (rows : ℕ) (s : Sized)
    → Upright active rows s
    → Upright active (suc rows) (grow_row active s)
unfolding grow_row
grow_row-Upright active rows s u =
    ground (arith, length-append {0} s.held.lines (new_row ∷ []), u.on_screen)

grow-Upright :
    (active : Bool) (n rows m : ℕ) (s : Sized)
    → n + rows ≡ m
    → Upright active rows s
    → Upright active m (grow active n s)
unfolding grow
grow-Upright active zero rows m s e u = subst (λ m. Upright active m s) (omega arith) u
grow-Upright active (suc n) rows m s e u =
    grow-Upright active n (suc rows) m (grow_row active s) (omega arith)
      (grow_row-Upright active rows s u)

shrink_row-Upright :
    (active : Bool) (rows : ℕ) (s : Sized)
    → 1 ≤ rows
    → Upright active (suc rows) s
    → Upright active rows (shrink_row active s)
unfolding shrink_row
shrink_row-Upright active rows s le u = ground (arith, length-pop {0} s.held.lines, u.on_screen)

shrink-Upright :
    (active : Bool) (n rows m : ℕ) (s : Sized)
    → n + rows ≡ m
    → 1 ≤ rows
    → Upright active m s
    → Upright active rows (shrink active n s)
unfolding shrink
shrink-Upright active zero rows m s e le u = subst (λ m. Upright active m s) (omega arith) u
shrink-Upright active (suc n) rows m s e le u =
    shrink-Upright active n rows (n + rows) (shrink_row active s) refl le (
      shrink_row-Upright active (n + rows) s (omega arith)
        (subst (λ m. Upright active m s) (omega arith) u))

resize-Upright :
    (active : Bool) (rows held : ℕ) (s : Sized)
    → 1 ≤ rows
    → Upright active held s
    → Upright active rows (resize active rows s)
unfolding resize
resize-Upright active rows held s le u =
    let b = s.held in
    let grown = grow-Upright active (rows - height b) held (rows - height b + held) s refl u in
    shrink-Upright active _ rows (rows - height b + held) _ (omega (arith, grown.holds, u.holds)) le
      grown

-- Both buffers come to hold the rows asked for, whichever is active.
fit_buffers-Holds :
    {shape : Geometry} (rows : ℕ) {d : Display}
    → 1 ≤ rows
    → InBounds shape d
    → Holds rows (fit_buffers rows d).main × AltHolds rows (fit_buffers rows d).alt
unfolding fit_buffers
fit_buffers-Holds rows {d} r h = elim (Option-cases d.alt) [
  | inl no_alt ↦
      let s : Upright true rows (resize true rows (sized d.main d.y)) =
        resize-Upright true rows d.rows (sized d.main d.y) r
          (record { holds = h.main_holds; on_screen = λ _. h.y_lt }) in
      ground (arith, s.holds)
  | inr (b, has_alt) ↦
      let s : Upright true rows (resize true rows (sized b d.y)) =
        resize-Upright true rows d.rows (sized b d.y) r
          (record { holds = ground arith; on_screen = λ _. h.y_lt }) in
      let t : Upright false rows (resize false rows (sized d.main d.y)) =
        resize-Upright false rows d.rows (sized d.main d.y) r
          (record { holds = h.main_holds; on_screen = λ _. h.y_lt }) in
      ground (arith, s.holds, t.holds)
]

adopt-InBounds :
    {shape : Geometry} (g : Geometry) {d : Display}
    → 2 ≤ g.cols
    → 1 ≤ g.rows
    → InBounds shape d
    → InBounds g (adopt g d)
unfolding adopt
adopt-InBounds g {d} c r h = record {
  cols_is = refl;
  rows_is = refl;
  cols_min = c;
  x_le = omega arith;
  y_lt = omega arith;
  region = omega arith;
  bottom_lt = omega arith;
  main_holds = (fit_buffers-Holds g.rows r h).0;
  alt_holds = (fit_buffers-Holds g.rows r h).1;
}

same_shape :
    {shape : Geometry} (g : Geometry) {d : Display}
    → InBounds shape d
    → (g.cols == d.cols && g.rows == d.rows) ≡ true
    → InBounds g d
same_shape g {d} h e = ground arith

-- A fit brings the display to the terminal's geometry, whatever its own was.
pub fit-InBounds :
    {shape : Geometry} (g : Option Geometry) {d : Display}
    → InBounds shape d
    → InBounds (size g) (fit g d)
unfolding fit
fit-InBounds g {d} h = elim (Bool-cases ((size g).cols == d.cols && (size g).rows == d.rows)) [
  | inl same ↦ rw same (same_shape (size g) h same)
  | inr other ↦ rw other (adopt-InBounds (size g) (size_min g).0 (size_min g).1 h)
]
