-- ===== src/Window/Grid.antt =====
-- The grid that is measured, and what a fit does with it.
use bashtion_wasm.Base.{
  ℕ, ◌+◌, ◌*◌, ◌≤◌, ◌<◌, max, ◌≡◌, ◌≢◌, ◌↔◌, refl, ap, sym, ◌∙◌, arith, true, false, ◌&&◌, Option,
  none, some, ◌==◌, if_known,
}
use bashtion_wasm.Screen.Display.{Geometry}
use bashtion_wasm.Window.{
  Pixels, Cell, Dimensions, Box, inner_width, inner_height, cells_in, measure, min_cols, min_rows,
  Fitted, adopt_geometry, fit_window,
}

-- So many cells of this size fit, and not one more, unless it is the least number.
pub record Fills (least size n : ℕ) (p : Pixels) : Type 0 where
  pub enough : least ≤ n
  pub fits : least < n → n * p.over ≤ size * p.under
  pub full : size * p.under < (n + 1) * p.over

-- The cell that is used has sides above zero.
abbrev Above : Option Cell → Type 0
Above none = Unit
Above (some c) = (0 < c.w.over) × (0 < c.h.over)

-- A geometry that fills a box with cells.
pub record Filled (b : Box) (c : Cell) (g : Geometry) : Type 0 where
  pub across : Fills min_cols (inner_width b) g.cols c.w
  pub down : Fills min_rows (inner_height b) g.rows c.h

abbrev grid_of : Box → Cell → Geometry
grid_of b c = record {
  cols = max min_cols (cells_in (inner_width b) c.w);
  rows = max min_rows (cells_in (inner_height b) c.h);
}

abbrev value_or : Option Geometry → Geometry → Geometry
value_or none g = g
value_or (some h) g = h

itself : (g : Geometry) → (g.cols == g.cols && g.rows == g.rows) ≡ true
itself g = ground arith

adopt_twice :
    (term : Geometry) (g : Option Geometry)
    → adopt_geometry (adopt_geometry term g).term g
      ≡ record { term = (adopt_geometry term g).term; changed = none }
adopt_twice term none = refl
adopt_twice term (some g) =
    if_known
      (λ (f : Fitted). adopt_geometry f.term (some g) ≡ record { term = f.term; changed = none })
      (g.cols == term.cols && g.rows == term.rows) {x = record { term = term; changed = none }}
      {y = record { term = g; changed = some g }} (λ h. rw h refl) (λ h. rw (itself g) refl)

-- What a fit owes: the terminal has the geometry that was measured, or the one it had where nothing can
-- be measured; exactly a geometry that is new is returned; and there is nothing left for a second fit.
pub record IsFit (d : Option Dimensions) (b : Option Box) (term : Geometry) (f : Fitted)
    : Type 0 where
  pub shaped : f.term ≡ value_or (measure d b) term
  pub told : (g : Geometry) → (f.changed ≡ some g) ↔ ((measure d b ≡ some g) × (g ≢ term))
  pub again : fit_window d b f.term ≡ record { term = f.term; changed = none }

same_geometry : (g term : Geometry) → (g.cols == term.cols && g.rows == term.rows) ≡ true → g ≡ term
same_geometry g term h = ground arith

adopt_geometry-term :
    (term : Geometry) (m : Option Geometry) → (adopt_geometry term m).term ≡ value_or m term
adopt_geometry-term term none = refl
adopt_geometry-term term (some g) =
    if_known (λ (f : Fitted). f.term ≡ g) (g.cols == term.cols && g.rows == term.rows)
      {x = record { term = term; changed = none }} {y = record { term = g; changed = some g }}
      (λ h. sym (same_geometry g term h)) (λ h. refl)

adopt_geometry-told :
    (term : Geometry) (m : Option Geometry) (g : Geometry)
    → ((adopt_geometry term m).changed ≡ some g) ↔ ((m ≡ some g) × (g ≢ term))
adopt_geometry-told term none g = (λ e. absurd (cc), λ h. absurd (cc (h.0)))
adopt_geometry-told term (some m) g =
    if_known (λ (f : Fitted). (f.changed ≡ some g) ↔ ((some m ≡ some g) × (g ≢ term)))
      (m.cols == term.cols && m.rows == term.rows) {x = record { term = term; changed = none }}
      {y = record { term = m; changed = some m }}
      (λ h. (λ e. absurd (cc), λ k. absurd (k.1 (cc (same_geometry m term h, k.0)))))
      (λ h. (λ e. (e, λ same. absurd (cc (other m g term h e same))), λ k. k.0))
  where
    other :
        (m g term : Geometry)
        → (m.cols == term.cols && m.rows == term.rows) ≡ false
        → some m ≡ some g
        → g ≡ term
        → true ≡ false
    other m g term h e same =
        let m_is : m ≡ term = cc (e, same) in
        sym (itself term)
        ∙ sym (ap (λ (n : Geometry). n.cols == term.cols && n.rows == term.rows) m_is)
        ∙ h

-- A fit takes the terminal to the geometry that is measured, columns and rows, and where nothing can be
-- measured leaves it; it returns a geometry exactly where that is measured and is not the terminal's
-- already; and a second fit of the same window changes nothing, and returns null.
pub fit_window-IsFit :
    (d : Option Dimensions) (b : Option Box) (term : Geometry)
    → IsFit d b term (fit_window d b term)
unfolding fit_window
fit_window-IsFit d b term = record {
  shaped = adopt_geometry-term term (measure d b);
  told = adopt_geometry-told term (measure d b);
  again = adopt_twice term (measure d b);
}
