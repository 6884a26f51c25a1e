-- ===== src/Screen/Whole/Fit.antt =====
-- A resize keeps every row whole: it adds empty rows and drops others, and cuts none.
use bashtion_wasm.Base.{
  if_keep, ℕ, zero, suc, ◌-◌, Bool, true, false, Option, Option-cases, inl, inr, arith, ltb, ◌==◌,
  ◌&&◌,
}
use bashtion_wasm.Screen.Display.{Geometry, Display, size}
use bashtion_wasm.Screen.Fit.{
  Sized, height, grow_row, shrink_row, grow, shrink, resize, sized, fit_buffers, adopt, fit,
}
use bashtion_wasm.Screen.Whole.Rows.{IsWhole, WholeBuffer, All-add, All-pop}

abbrev WholeHeld : Sized → Type 0
WholeHeld s = WholeBuffer s.held

grow_row-Whole : (active : Bool) (s : Sized) → WholeHeld s → WholeHeld (grow_row active s)
unfolding grow_row
grow_row-Whole active s h =
    if_keep WholeHeld (active && (ltb 0 s.held.base && s.y == height s.held - 1)) h
      (All-add s.held.lines h)

grow-Whole : (active : Bool) (n : ℕ) (s : Sized) → WholeHeld s → WholeHeld (grow active n s)
unfolding grow
grow-Whole active zero s h = h
grow-Whole active (suc n) s h = grow-Whole active n _ (grow_row-Whole active s h)

shrink_row-Whole : (active : Bool) (s : Sized) → WholeHeld s → WholeHeld (shrink_row active s)
unfolding shrink_row
shrink_row-Whole active s h =
    if_keep WholeHeld (active && ltb s.y (height s.held - 1)) (All-pop s.held.lines h) h

shrink-Whole : (active : Bool) (n : ℕ) (s : Sized) → WholeHeld s → WholeHeld (shrink active n s)
unfolding shrink
shrink-Whole active zero s h = h
shrink-Whole active (suc n) s h = shrink-Whole active n _ (shrink_row-Whole active s h)

resize-Whole :
    (active : Bool) (rows : ℕ) (s : Sized) → WholeHeld s → WholeHeld (resize active rows s)
unfolding resize
resize-Whole active rows s h = shrink-Whole active _ _ (grow-Whole active _ s h)

fit_buffers-IsWhole : (rows : ℕ) {d : Display} → IsWhole d → IsWhole (fit_buffers rows d)
unfolding fit_buffers
fit_buffers-IsWhole rows {d} h =
    let main = resize-Whole true rows (sized d.main d.y) h.main_whole in
    let aside = resize-Whole false rows (sized d.main d.y) h.main_whole in
    elim (Option-cases d.alt) [
      | inl no_alt ↦ ground arith
      | inr (b, has_alt) ↦
          let s : WholeHeld (resize true rows (sized b d.y)) =
            resize-Whole true rows _ (ground arith) in
          ground arith
    ]

pub fit-IsWhole : (g : Option Geometry) {d : Display} → IsWhole d → IsWhole (fit g d)
unfolding fit adopt
fit-IsWhole g {d} h =
    let f = fit_buffers-IsWhole (size g).rows h in
    if_keep IsWhole ((size g).cols == d.cols && (size g).rows == d.rows) h
      (record { main_whole = f.main_whole; alt_whole = f.alt_whole })
