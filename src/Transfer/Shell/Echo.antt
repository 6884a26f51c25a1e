-- ===== src/Transfer/Shell/Echo.antt =====
-- The shell echoes what is typed, in front of what it prints.
use bashtion_wasm.Base.{
  ℕ, zero, suc, ◌+◌, ◌/◌, ◌%◌, ◌≡◌, refl, arith, Bool, false, ◌&&◌, ◌||◌, [], ◌∷◌, ◌++◌, Str, codes,
  All, All-append, ◌==◌, if_keep,
}
use bashtion_wasm.Transfer.Shell.{
  Line, probe, interrupt, clear, pack, ready, check, unpack, go, restore, emit, spaced,
  decimal_from, decimal, line_text,
}

-- The text begins with what all markers begin with, `BWT-` or `BWR-`.
unfoldable pub dash_first : Str → Bool
dash_first [] = false
dash_first (c ∷ s) = c == b'-'

unfoldable pub side_first : Str → Bool
side_first [] = false
side_first (c ∷ s) = (c == b'T' || c == b'R') && dash_first s

unfoldable pub w_first : Str → Bool
w_first [] = false
w_first (c ∷ s) = c == b'W' && side_first s

unfoldable pub begins_marker : Str → Bool
begins_marker [] = false
begins_marker (c ∷ s) = c == b'B' && w_first s

unfoldable pub has_marker : Str → Bool
has_marker [] = false
has_marker (c ∷ s) = begins_marker (c ∷ s) || has_marker s

abbrev pub NotB : ℕ → Type 0
NotB c = (c == b'B') ≡ false

not_begun : (c : ℕ) (s : Str) → NotB c → begins_marker (c ∷ s) ≡ false
unfolding begins_marker
not_begun c s h = rw h refl

-- Text without that letter can be left out.
passed_over : (s t : Str) → All NotB s → has_marker (s ++ t) ≡ has_marker t
unfolding has_marker
passed_over [] t h = refl
passed_over (c ∷ s) t (p, h) = rw (not_begun c (s ++ t) p) (passed_over s t h)

digit-NotB : (n : ℕ) → NotB (b'0' + n % 10)
digit-NotB n = ground arith

decimal_from-NotB : (rounds n : ℕ) → All NotB (decimal_from rounds n)
unfolding decimal_from
decimal_from-NotB zero n = tt
decimal_from-NotB (suc rounds) n =
    if_keep (All NotB) (n / 10 == 0) (digit-NotB n, tt)
      (All-append NotB (decimal_from rounds (n / 10)) ((b'0' + n % 10) ∷ [])
        (decimal_from-NotB rounds (n / 10)) (digit-NotB n, tt))

-- The letter is not in the names of the files that a recovery removes.
abbrev pub Unlettered : Line → Type 0
Unlettered (restore files) = All NotB files
Unlettered l = Unit

-- What stands behind the size in the line that starts a reader.
abbrev after_number : Str
after_number = codes " >> /tmp/bw-load.b64; " ++ (emit (codes "R-BLK") [] [] ++ codes "\n")

-- None of the lines that are typed holds a marker that the page waits for.
pub line_text_unmarked : (l : Line) → Unlettered l → has_marker (line_text l) ≡ false
unfolding line_text spaced has_marker begins_marker w_first side_first dash_first
line_text_unmarked probe h = refl
line_text_unmarked interrupt h = refl
line_text_unmarked clear h = refl
line_text_unmarked pack h = refl
line_text_unmarked ready h = refl
line_text_unmarked check h = refl
line_text_unmarked unpack h = refl
line_text_unmarked (go n) h = passed_over (decimal n) after_number (decimal_from-NotB (n + 1) n)
line_text_unmarked (restore files) h = passed_over files (codes " 2>/dev/null\n") h
