-- ===== src/Regex.antt =====
-- JavaScript's regular expressions, as far as the page uses them: every repetition in the source
-- is of one character class, so a star takes a class and the matcher needs no fuel. The matcher
-- backtracks as ECMAScript's does, in continuation-passing style: alternatives from left to right,
-- a greedy star from its longest match down, a lazy one from its shortest up.
pub mod Sound
use bashtion_wasm.Base.{
  ℕ, zero, suc, ◌-◌, Bool, true, false, not, ◌||◌, List, [], ◌∷◌, Option, none, some, length, Str,
  ◌==◌, within,
}

abbrev pub Class : Type 0
Class = ℕ → Bool

pub data Re : Type 0 where
  one : Class → Re
  many many_lazy : Class → Re
  seq alt : Re → Re → Re
  group : ℕ → Re → Re
  eps text_start text_end line_end word_edge : Re

infixr 45 ◌⨾◌
abbrev pub ◌⨾◌ : Re → Re → Re
◌⨾◌ = seq

-- A place in the text: what is before it (nearest first), what is after it, and the groups so far.
pub record Place : Type 0 where
  pub before : Str
  pub rest : Str
  pub groups : List (ℕ × Str)

-- `\s`, `\d`, `\w` and the line terminators of ECMAScript.
abbrev pub space : Class
space c =
    within 9 13 c
    || c == 32
    || c == 0xa0
    || c == 0x1680
    || within 0x2000 0x200a c
    || c == 0x2028
    || c == 0x2029
    || c == 0x202f
    || c == 0x205f
    || c == 0x3000
    || c == 0xfeff

abbrev pub digit : Class
digit c = within b'0' b'9' c

abbrev pub letter : Class
letter c = within b'A' b'Z' c || within b'a' b'z' c

abbrev pub word : Class
word c = letter c || digit c || c == b'_'

abbrev pub line_break : Class
line_break c = c == 10 || c == 13 || c == 0x2028 || c == 0x2029

abbrev pub char : ℕ → Re
char c = one (λ x. x == c)

-- A literal text.
abbrev pub lit : Str → Re
lit [] = eps
lit (c ∷ []) = char c
lit (c ∷ d ∷ s) = char c ⨾ lit (d ∷ s)

abbrev pub many1 : Class → Re
many1 c = one c ⨾ many c

abbrev pub optional : Re → Re
optional r = alt r eps

abbrev starts_with : Class → Str → Bool
starts_with c [] = false
starts_with c (x ∷ xs) = c x

abbrev pub ends_line : Str → Bool
ends_line [] = true
ends_line (x ∷ xs) = line_break x

abbrev pub at_word_edge : Str → Str → Bool
at_word_edge b s = elim (starts_with word b) [
  | true ↦ not (starts_with word s)
  | false ↦ starts_with word s
]

-- The text between two places, from what is left at each.
abbrev consumed : Str → ℕ → Str
consumed [] n = []
consumed (x ∷ xs) zero = []
consumed (x ∷ xs) (suc n) = x ∷ consumed xs n

abbrev pub between : Str → Str → Str
between from to = consumed from (length from - length to)

module _ {ℓ} {A : Type ℓ} where
  pub greedy : Class → Str → Str → List (ℕ × Str) → (Place → Option A) → Option A
  greedy c b [] g k = k (record { before = b; rest = []; groups = g })
  greedy c b (x ∷ xs) g k =
      let stop = k (record { before = b; rest = x ∷ xs; groups = g }) in
      elim (c x) [
        | true ↦ elim (greedy c (x ∷ b) xs g k) [ some v ↦ some v | none ↦ stop ]
        | false ↦ stop
      ]

  pub lazy : Class → Str → Str → List (ℕ × Str) → (Place → Option A) → Option A
  lazy c b [] g k = k (record { before = b; rest = []; groups = g })
  lazy c b (x ∷ xs) g k = elim (k (record { before = b; rest = x ∷ xs; groups = g })) [
    | some v ↦ some v
    | none ↦ elim (c x) [ true ↦ lazy c (x ∷ b) xs g k | false ↦ none ]
  ]

  pub take_one : Class → Str → Str → List (ℕ × Str) → (Place → Option A) → Option A
  take_one c b [] g k = none
  take_one c b (x ∷ xs) g k = elim (c x) [
    | true ↦ k (record { before = x ∷ b; rest = xs; groups = g })
    | false ↦ none
  ]

  abbrev pub when : Bool → Option A → Option A
  when b o = elim b [ true ↦ o | false ↦ none ]

abbrev pub is_empty : Str → Bool
is_empty [] = true
is_empty (x ∷ xs) = false

unfoldable pub run {ℓ} : {A : Type ℓ} → Re → Place → (Place → Option A) → Option A
unfolding greedy lazy take_one
run (one c) p k = take_one c p.before p.rest p.groups k
run (many c) p k = greedy c p.before p.rest p.groups k
run (many_lazy c) p k = lazy c p.before p.rest p.groups k
run (seq r q) p k = run r p (λ p'. run q p' k)
run (alt r q) p k = elim (run r p k) [ some v ↦ some v | none ↦ run q p k ]
run (group n r) p k =
    run r p (λ p'. k (record p' { groups = (n, between p.rest p'.rest) ∷ p'.groups }))
run eps p k = k p
run text_start p k = when (is_empty p.before) (k p)
run text_end p k = when (is_empty p.rest) (k p)
run line_end p k = when (ends_line p.rest) (k p)
run word_edge p k = when (at_word_edge p.before p.rest) (k p)

abbrev pub place : Str → Str → Place
place b s = record { before = b; rest = s; groups = [] }

-- The leftmost match from a place on: the place behind it, and how many characters stand before it.
unfoldable pub exec_from : Re → ℕ → Str → Str → Option (ℕ × Place)
unfolding run
exec_from r n b [] = elim (run r (place b []) some) [ some p ↦ some (n, p) | none ↦ none ]
exec_from r n b (x ∷ xs) = elim (run r (place b (x ∷ xs)) some) [
  | some p ↦ some (n, p)
  | none ↦ exec_from r (suc n) (x ∷ b) xs
]

-- `re.exec(s)`.
unfoldable pub exec : Re → Str → Option (ℕ × Place)
unfolding exec_from
exec r s = exec_from r 0 [] s

-- `re.test(s)`.
unfoldable pub test : Re → Str → Bool
unfolding exec
test r s = elim (exec r s) [ some m ↦ true | none ↦ false ]

-- The last assignment of a group, `undefined` if it took no part in the match.
abbrev pub group_of : ℕ → List (ℕ × Str) → Option Str
group_of n [] = none
group_of n ((m, s) ∷ gs) =
    let rest = group_of n gs in elim (m == n) [ true ↦ some s | false ↦ rest ]

-- `s.replace(re, '')` with the flag g. `skip` counts the characters of a match still to be passed
-- over; a match of no characters removes nothing, and the search goes on behind the next character.
unfoldable pub remove_from : Re → ℕ → Str → Str → Str
unfolding run
remove_from r skip b [] = []
remove_from r (suc skip) b (x ∷ xs) = remove_from r skip (x ∷ b) xs
remove_from r zero b (x ∷ xs) = elim (run r (place b (x ∷ xs)) some) [
  | none ↦ x ∷ remove_from r zero (x ∷ b) xs
  | some p ↦ elim (length (x ∷ xs) - length p.rest) [
    | zero ↦ x ∷ remove_from r zero (x ∷ b) xs
    | suc n ↦ remove_from r n (x ∷ b) xs
  ]
]

unfoldable pub remove_all : Re → Str → Str
unfolding remove_from
remove_all r s = remove_from r zero [] s
