-- ===== src/Screen/Whole/Rows.antt =====
-- The rows of both buffers: printing, scrolling and resizing keep them whole.
use bashtion_wasm.Base.{
  if_keep, Option-cases, inl, inr, ℕ, zero, suc, ◌+◌, ◌≤◌, ◌≡◌, refl, Bool, true, List, [], ◌∷◌,
  ◌++◌, Option, none, some, All, length, get_or, set, drop, replicate, insert_at, remove_at, pop,
  arith, ltb, ◌&&◌,
}
use bashtion_wasm.Screen.Cells.{
  Cell, unset, right_half, glyph, Row, new_row, is_right_half, erase, put,
}
use bashtion_wasm.Screen.Cells.Whole.{
  Whole, at, is_glyph, glyph_before, at-erase, at-put, erase-Whole, open_gap-Whole, erased_edge,
}
use bashtion_wasm.Screen.Display.{Buffer, Display, buf, with_buf, line, set_line, set_cells, buffer}
use bashtion_wasm.Screen.Motion.{
  join, owner, join_before, combine, write_cells, shifted, place_char, push_row, rotate_rows,
}

join_kind :
    (cs : List Cell) (k ch i : ℕ)
    → (is_right_half (at (join cs k ch) i) ≡ is_right_half (at cs i))
      × (is_glyph (at (join cs k ch) i) ≡ is_glyph (at cs i))
unfolding join
join_kind [] k ch i = (refl, refl)
join_kind (unset ∷ cs) zero ch i = (refl, refl)
join_kind (right_half ∷ cs) zero ch i = (refl, refl)
join_kind (glyph s ∷ cs) zero ch zero = (refl, refl)
join_kind (glyph s ∷ cs) zero ch (suc i) = (refl, refl)
join_kind (unset ∷ cs) (suc k) ch zero = (refl, refl)
join_kind (right_half ∷ cs) (suc k) ch zero = (refl, refl)
join_kind (glyph s ∷ cs) (suc k) ch zero = (refl, refl)
join_kind (unset ∷ cs) (suc k) ch (suc i) = join_kind cs k ch i
join_kind (right_half ∷ cs) (suc k) ch (suc i) = join_kind cs k ch i
join_kind (glyph s ∷ cs) (suc k) ch (suc i) = join_kind cs k ch i

join_owned :
    (cs : List Cell) (k ch i : ℕ)
    → Whole cs
    → is_right_half (at (join cs k ch) i) ≡ true
    → glyph_before (join cs k ch) i ≡ true
join_owned cs k ch zero w r = ground (arith, w.owned 0, join_kind cs k ch 0)
join_owned cs k ch (suc i) w r =
    ground (arith, w.owned (suc i), join_kind cs k ch i, join_kind cs k ch (suc i))

join_before-Whole : (x ch : ℕ) {cs : List Cell} → Whole cs → Whole (join_before cs x ch)
unfolding join_before
join_before-Whole zero ch w = w
join_before-Whole (suc k) ch {cs} w = record { owned = λ i. join_owned cs (owner cs k) ch i w }

-- A character over `w` columns, written where both edges of the gap are clean.
write_owned :
    (ch w x i : ℕ) (cs : List Cell)
    → 1 ≤ w
    → w ≤ 2
    → Whole cs
    → is_right_half (at (write_cells ch w x cs) i) ≡ true
    → glyph_before (write_cells ch w x cs) i ≡ true
unfolding write_cells
write_owned ch w x zero cs lo hi h r =
    let e = erase cs x (x + w) in
    ground (
      arith,
      at-put e x 0 (glyph (ch ∷ [])),
      at-put (put e x (glyph (ch ∷ []))) (x + 1) 0 right_half,
      (erase-Whole x (x + w) (omega arith) h).owned 0,
    )
write_owned ch w x (suc i) cs lo hi h r =
    let e = erase cs x (x + w) in
    ground (
      arith,
      at-put e x i (glyph (ch ∷ [])),
      at-put e x (suc i) (glyph (ch ∷ [])),
      at-put (put e x (glyph (ch ∷ []))) (x + 1) i right_half,
      at-put (put e x (glyph (ch ∷ []))) (x + 1) (suc i) right_half,
      at-erase cs x (x + w) (suc i),
      (erase-Whole x (x + w) (omega arith) h).owned (suc i),
    )

pub write_cells-Whole :
    (ch w x : ℕ) {cs : List Cell} → 1 ≤ w → w ≤ 2 → Whole cs → Whole (write_cells ch w x cs)
write_cells-Whole ch w x {cs} lo hi h = record { owned = λ i. write_owned ch w x i cs lo hi h }

pub shifted-Whole :
    (x w cols : ℕ) (insert : Bool) {cs : List Cell} → Whole cs → Whole (shifted cs x w cols insert)
shifted-Whole x w cols insert {cs} h =
    if_keep Whole (insert && ltb x (length cs))
      (open_gap-Whole x w cols (erased_edge cs x) (erase-Whole x x (omega arith) h)) h

abbrev pub WholeRow : Row → Type 0
WholeRow r = Whole r.cells

pub nil-Whole : Whole []
nil-Whole = record { owned = λ i r. cc }

-- Rows of a list.
pub All-get_or : (ls : List Row) (i : ℕ) → All WholeRow ls → WholeRow (get_or ls i new_row)
All-get_or [] i h = nil-Whole
All-get_or (l ∷ ls) zero h = h.0
All-get_or (l ∷ ls) (suc i) h = All-get_or ls i h.1

All-set :
    (ls : List Row) (i : ℕ) (r : Row) → WholeRow r → All WholeRow ls → All WholeRow (set ls i r)
All-set [] i r w h = tt
All-set (l ∷ ls) zero r w h = (w, h.1)
All-set (l ∷ ls) (suc i) r w h = (h.0, All-set ls i r w h.1)

All-insert_at : (ls : List Row) (i : ℕ) → All WholeRow ls → All WholeRow (insert_at ls i new_row)
unfolding insert_at
All-insert_at [] i h = (nil-Whole, tt)
All-insert_at (l ∷ ls) zero h = (nil-Whole, h)
All-insert_at (l ∷ ls) (suc i) h = (h.0, All-insert_at ls i h.1)

All-remove_at : (ls : List Row) (i : ℕ) → All WholeRow ls → All WholeRow (remove_at ls i)
unfolding remove_at
All-remove_at [] i h = tt
All-remove_at (l ∷ ls) zero h = h.1
All-remove_at (l ∷ ls) (suc i) h = (h.0, All-remove_at ls i h.1)

pub All-drop : (n : ℕ) (ls : List Row) → All WholeRow ls → All WholeRow (drop n ls)
All-drop zero ls h = h
All-drop (suc n) [] h = tt
All-drop (suc n) (l ∷ ls) h = All-drop n ls h.1

pub All-pop : (ls : List Row) → All WholeRow ls → All WholeRow (pop ls)
unfolding pop
All-pop [] h = tt
All-pop (l ∷ []) h = tt
All-pop (l ∷ m ∷ ls) h = (h.0, All-pop (m ∷ ls) h.1)

pub All-add : (ls : List Row) → All WholeRow ls → All WholeRow (ls ++ (new_row ∷ []))
All-add [] h = (nil-Whole, tt)
All-add (l ∷ ls) h = (h.0, All-add ls h.1)

All-replicate : (n : ℕ) → All WholeRow (replicate n new_row)
All-replicate zero = tt
All-replicate (suc n) = (nil-Whole, All-replicate n)

-- A buffer, and a display.
abbrev pub WholeBuffer : Buffer → Type 0
WholeBuffer b = All WholeRow b.lines

abbrev pub WholeAlt : Option Buffer → Type 0
WholeAlt none = Unit
WholeAlt (some b) = WholeBuffer b

pub record IsWhole (d : Display) : Type 0 where
  pub main_whole : WholeBuffer d.main
  pub alt_whole : WholeAlt d.alt

pub buffer-Whole : (rows keep : ℕ) → WholeBuffer (buffer rows keep)
unfolding buffer
buffer-Whole rows keep = All-replicate rows

pub buf-Whole : {d : Display} → IsWhole d → WholeBuffer (buf d)
buf-Whole {d} h =
    elim d.alt as (λ a. WholeAlt a → WholeBuffer (elim a [ none ↦ d.main | some b ↦ b ])) [
      | none ↦ λ _. h.main_whole
      | some b ↦ λ w. w
    ]
      h.alt_whole

pub with_buf-IsWhole :
    {d : Display} (b : Buffer) → IsWhole d → WholeBuffer b → IsWhole (with_buf d b)
unfolding with_buf
with_buf-IsWhole {d} b h w = elim (Option-cases d.alt) [
  | inl e ↦ ground arith
  | inr (a, e) ↦ ground arith
]

pub line-Whole : {d : Display} (i : ℕ) → IsWhole d → WholeRow (line d i)
line-Whole {d} i h = All-get_or (buf d).lines _ (buf-Whole h)

pub set_line-IsWhole :
    {d : Display} (i : ℕ) (r : Row) → IsWhole d → WholeRow r → IsWhole (set_line d i r)
unfolding set_line
set_line-IsWhole {d} i r h w =
    with_buf-IsWhole _ h (All-set (buf d).lines ((buf d).base + i) r w (buf-Whole h))

pub set_cells-IsWhole :
    {d : Display} (i : ℕ) (cs : List Cell) → IsWhole d → Whole cs → IsWhole (set_cells d i cs)
unfolding set_cells
set_cells-IsWhole i cs h w = set_line-IsWhole i _ h w

pub push_row-Whole : (b : Buffer) (bottom : ℕ) → WholeBuffer b → WholeBuffer (push_row b bottom)
unfolding push_row
push_row-Whole b bottom h =
    let more = All-insert_at b.lines (b.base + bottom + 1) h in
    if_keep WholeBuffer (ltb (b.keep + 64) (b.base + 1)) (All-drop _ _ more) more

pub rotate_rows-Whole :
    (b : Buffer) (out into : ℕ) → WholeBuffer b → WholeBuffer (rotate_rows b out into)
unfolding rotate_rows
rotate_rows-Whole b out into h = All-insert_at _ _ (All-remove_at b.lines (b.base + out) h)

pub combine-IsWhole : (ch : ℕ) {d : Display} → IsWhole d → IsWhole (combine ch d)
unfolding combine
combine-IsWhole ch {d} h = set_cells-IsWhole d.y _ h (join_before-Whole _ ch (line-Whole d.y h))

pub place_char-IsWhole :
    (ch w : ℕ) {d : Display} → 1 ≤ w → w ≤ 2 → IsWhole d → IsWhole (place_char ch w d)
unfolding place_char
place_char-IsWhole ch w {d} lo hi h =
    let cells =
      write_cells-Whole ch w d.x lo hi (shifted-Whole d.x w d.cols d.insert (line-Whole d.y h)) in
    let e = set_cells-IsWhole d.y _ h cells in
    record { main_whole = e.main_whole; alt_whole = e.alt_whole }
