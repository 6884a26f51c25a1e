-- ===== src/Regex/Sound.antt =====
-- What the matcher of Regex decides: a relation between an expression and the words that it takes.
use mathlib.Core.List.{append_assoc}
use mathlib.Core.Path.{subst}
use bashtion_wasm.Base.{
  ℕ, suc, ◌↔◌, Bool, true, false, List, [], ◌∷◌, ◌++◌, Option, none, some, ◌≡◌, refl, sym, ap, ◌∙◌,
  ◌⊎◌, inl, inr, Str, All, arith, Bool-cases, Option-cases,
}
use bashtion_wasm.Regex.{
  Class, Re, one, many, many_lazy, seq, alt, group, eps, text_start, text_end, line_end, word_edge,
  Place, greedy, lazy, take_one, between, is_empty, ends_line, at_word_edge, run, place, exec_from,
  exec, test,
}

-- What stands before a place once the word `w` is behind it.
abbrev pub passed : Str → Str → Str
passed b [] = b
passed b (x ∷ w) = passed (x ∷ b) w

abbrev pub Takes : Class → Str → Type 0
Takes c = All (λ x. c x ≡ true)

-- `r` takes the word `w` between what is before it, `b`, and what is after it, `s`.
abbrev pub Matches : Re → Str → Str → Str → Type 0
Matches (one c) b w s = (x : ℕ) × (c x ≡ true) × (w ≡ x ∷ [])
Matches (many c) b w s = Takes c w
Matches (many_lazy c) b w s = Takes c w
Matches (seq r q) b w s =
    (u : Str) × (v : Str) × (w ≡ u ++ v) × Matches r b u (v ++ s) × Matches q (passed b u) v s
Matches (alt r q) b w s = Matches r b w s ⊎ Matches q b w s
Matches (group n r) b w s = Matches r b w s
Matches eps b w s = w ≡ []
Matches text_start b w s = (w ≡ []) × (is_empty b ≡ true)
Matches text_end b w s = (w ≡ []) × (is_empty s ≡ true)
Matches line_end b w s = (w ≡ []) × (ends_line s ≡ true)
Matches word_edge b w s = (w ≡ []) × (at_word_edge b s ≡ true)

passed-append : (b u v : Str) → passed b (u ++ v) ≡ passed (passed b u) v
passed-append b [] v = refl
passed-append b (x ∷ u) v = passed-append (x ∷ b) u v

module _ {ℓ} {A : Type ℓ} where
  -- A run that gives a value has taken some word, and given the value at the place behind it.
  abbrev Ran : Re → Place → (Place → Option A) → A → Type ℓ
  Ran r p k v =
      (w : Str) × (s : Str) × (g : List (ℕ × Str)) × (p.rest ≡ w ++ s)
      × Matches r p.before w s
      × (k (record { before = passed p.before w; rest = s; groups = g }) ≡ some v)

  abbrev StarRan : Class → Str → Str → (Place → Option A) → A → Type ℓ
  StarRan c b rest k v =
      (w : Str) × (s : Str) × (g : List (ℕ × Str)) × (rest ≡ w ++ s)
      × Takes c w
      × (k (record { before = passed b w; rest = s; groups = g }) ≡ some v)

  StarRan-cons :
      (c : Class) (b : Str) (x : ℕ) (xs : Str) (k : Place → Option A) (v : A)
      → c x ≡ true
      → StarRan c (x ∷ b) xs k v
      → StarRan c b (x ∷ xs) k v
  StarRan-cons c b x xs k v h (w, s, g, e, t, r) = (x ∷ w, s, g, ap (x ∷◌) e, (h, t), r)

  greedy-StarRan :
      (c : Class) (b s : Str) (g : List (ℕ × Str)) (k : Place → Option A) (v : A)
      → greedy c b s g k ≡ some v
      → StarRan c b s k v
  unfolding greedy
  greedy-StarRan c b [] g k v e = ([], [], g, refl, tt, e)
  greedy-StarRan c b (x ∷ xs) g k v e = elim (Bool-cases (c x)) [
    | inr other ↦ ([], x ∷ xs, g, refl, tt, rw (other, greedy) at e)
    | inl fits ↦ elim (Option-cases (greedy c (x ∷ b) xs g k)) [
      | inl stuck ↦ ([], x ∷ xs, g, refl, tt, ground arith)
      | inr (u, more) ↦
          StarRan-cons c b x xs k v fits (greedy-StarRan c (x ∷ b) xs g k v (ground arith))
    ]
  ]

  lazy-StarRan :
      (c : Class) (b s : Str) (g : List (ℕ × Str)) (k : Place → Option A) (v : A)
      → lazy c b s g k ≡ some v
      → StarRan c b s k v
  unfolding lazy
  lazy-StarRan c b [] g k v e = ([], [], g, refl, tt, e)
  lazy-StarRan c b (x ∷ xs) g k v e =
      elim (Option-cases (k (record { before = b; rest = x ∷ xs; groups = g }))) [
        | inr (u, here) ↦ ([], x ∷ xs, g, refl, tt, ground arith)
        | inl not_here ↦ elim (Bool-cases (c x)) [
          | inl fits ↦
              StarRan-cons c b x xs k v fits (lazy-StarRan c (x ∷ b) xs g k v (ground arith))
          | inr other ↦ ground arith
        ]
      ]

  take_one-Ran :
      (c : Class) (b s : Str) (g : List (ℕ × Str)) (k : Place → Option A) (v : A)
      → take_one c b s g k ≡ some v
      → Ran (one c) (record { before = b; rest = s; groups = g }) k v
  unfolding take_one
  take_one-Ran c b [] g k v e = ground arith
  take_one-Ran c b (x ∷ xs) g k v e = elim (Bool-cases (c x)) [
    | inl fits ↦ (x ∷ [], xs, g, refl, (x, fits, refl), ground arith)
    | inr other ↦ ground arith
  ]

  when-Ran :
      (r : Re) (b : Bool) (p : Place) (k : Place → Option A) (v : A)
      → elim b [ true ↦ k p | false ↦ none ] ≡ some v
      → (b ≡ true → Matches r p.before [] p.rest)
      → Ran r p k v
  when-Ran r true p k v e h = ([], p.rest, p.groups, refl, h refl, e)
  when-Ran r false p k v e h = ground arith

  -- Whatever the matcher finds, the expression takes.
  pub run-Ran :
      (r : Re) (p : Place) (k : Place → Option A) (v : A) → run r p k ≡ some v → Ran r p k v
  unfolding run
  run-Ran (one c) p k v e = take_one-Ran c p.before p.rest p.groups k v e
  run-Ran (many c) p k v e = greedy-StarRan c p.before p.rest p.groups k v e
  run-Ran (many_lazy c) p k v e = lazy-StarRan c p.before p.rest p.groups k v e
  run-Ran (seq r q) p k v e =
      let (u, t, g, split, mr, e') = run-Ran r p (λ p'. run q p' k) v e in
      let (w, s, g', split', mq, e'') =
        run-Ran q (record { before = passed p.before u; rest = t; groups = g }) k v e' in
      (
        u ++ w,
        s,
        g',
        split ∙ ap (u ++◌) split' ∙ sym (append_assoc u w s),
        (u, w, refl, subst (Matches r p.before u) split' mr, mq),
        rw (passed-append p.before u w) e'',
      )
  run-Ran (alt r q) p k v e = elim (Option-cases (run r p k)) [
    | inr (u, left) ↦
        let (w, s, g, split, m, e') = run-Ran r p k v (ground arith) in (w, s, g, split, inl m, e')
    | inl no_left ↦
        let (w, s, g, split, m, e') = run-Ran q p k v (ground arith) in (w, s, g, split, inr m, e')
  ]
  run-Ran (group n r) p k v e =
      let (w, s, g, split, m, e') =
        run-Ran r p (λ p'. k (record p' { groups = (n, between p.rest p'.rest) ∷ p'.groups })) v
          e in
      (w, s, (n, between p.rest s) ∷ g, split, m, e')
  run-Ran eps p k v e = ([], p.rest, p.groups, refl, refl, e)
  run-Ran text_start p k v e = when-Ran text_start (is_empty p.before) p k v e (λ h. (refl, h))
  run-Ran text_end p k v e = when-Ran text_end (is_empty p.rest) p k v e (λ h. (refl, h))
  run-Ran line_end p k v e = when-Ran line_end (ends_line p.rest) p k v e (λ h. (refl, h))
  run-Ran word_edge p k v e =
      when-Ran word_edge (at_word_edge p.before p.rest) p k v e (λ h. (refl, h))

  -- A continuation that gives a value wherever the word `w` may end.
  abbrev Ready : Str → Str → (Place → Option A) → Type ℓ
  Ready b s k =
      (g : List (ℕ × Str)) → (v : A) × (k (record { before = b; rest = s; groups = g }) ≡ some v)

  abbrev Gives : Option A → Type ℓ
  Gives o = (v : A) × (o ≡ some v)

  greedy-Gives :
      (c : Class) (b w s : Str) (g : List (ℕ × Str)) (k : Place → Option A)
      → Takes c w
      → Ready (passed b w) s k
      → Gives (greedy c b (w ++ s) g k)
  unfolding greedy
  greedy-Gives c b [] [] g k t h = h g
  greedy-Gives c b [] (x ∷ s) g k t h =
      let (v, e) = h g in
      elim (Bool-cases (c x)) [
        | inr other ↦ (v, rw (other, e))
        | inl fits ↦ elim (Option-cases (greedy c (x ∷ b) s g k)) [
          | inl stuck ↦ (v, rw (fits, stuck, e))
          | inr (u, more) ↦ (u, rw (fits, more))
        ]
      ]
  greedy-Gives c b (x ∷ w) s g k t h =
      let (v, e) = greedy-Gives c (x ∷ b) w s g k t.1 h in (v, rw (t.0, e))

  lazy-Gives :
      (c : Class) (b w s : Str) (g : List (ℕ × Str)) (k : Place → Option A)
      → Takes c w
      → Ready (passed b w) s k
      → Gives (lazy c b (w ++ s) g k)
  unfolding lazy
  lazy-Gives c b [] [] g k t h = h g
  lazy-Gives c b [] (x ∷ s) g k t h = let (v, e) = h g in (v, rw e)
  lazy-Gives c b (x ∷ w) s g k t h =
      let (v, e) = lazy-Gives c (x ∷ b) w s g k t.1 h in
      elim (Option-cases (k (record { before = b; rest = x ∷ (w ++ s); groups = g }))) [
        | inl later ↦ (v, rw (later, t.0, e))
        | inr (u, here) ↦ (u, rw here)
      ]

  empty-Gives :
      (b w s : Str) (g : List (ℕ × Str)) (k : Place → Option A) (check : Str → Bool)
      → w ≡ []
      → check s ≡ true
      → Ready (passed b w) s k
      → Gives (elim (check (w ++ s)) [
        | true ↦ k (record { before = b; rest = w ++ s; groups = g })
        | false ↦ none
      ])
  empty-Gives b [] s g k check e t h = let (v, e') = h g in (v, rw (t, e'))
  empty-Gives b (x ∷ w) s g k check e t h = absurd (cc)

  -- Where the expression takes a word behind which the rest gives a value, the matcher finds one.
  pub run-Gives :
      (r : Re) (b w s : Str) (g : List (ℕ × Str)) (k : Place → Option A)
      → Matches r b w s
      → Ready (passed b w) s k
      → Gives (run r (record { before = b; rest = w ++ s; groups = g }) k)
  unfolding run take_one
  run-Gives (one c) b w s g k (x, t, e) h =
      let h' : Ready (passed b (x ∷ [])) s k = subst (λ w. Ready (passed b w) s k) e h in
      let (v, e') = h' g in (v, rw (e, t, e'))
  run-Gives (many c) b w s g k m h = greedy-Gives c b w s g k m h
  run-Gives (many_lazy c) b w s g k m h = lazy-Gives c b w s g k m h
  run-Gives (seq r q) b w s g k (u, v, e, mr, mq) h = rw e (
      rw append_assoc (
        run-Gives r b u (v ++ s) g (λ p'. run q p' k) mr
          (λ g'.
            run-Gives q (passed b u) v s g' k mq
              (subst (λ x. Ready x s k) (ap (passed b) e ∙ passed-append b u v) h))))
  run-Gives (alt r q) b w s g k (inl m) h = let (v, e) = run-Gives r b w s g k m h in (v, rw e)
  run-Gives (alt r q) b w s g k (inr m) h =
      let (v, e) = run-Gives q b w s g k m h in
      elim (Option-cases (run r (record { before = b; rest = w ++ s; groups = g }) k)) [
        | inl no_left ↦ (v, rw (no_left, e))
        | inr (u, left) ↦ (u, rw left)
      ]
  run-Gives (group n r) b w s g k m h =
      run-Gives r b w s g _ m (λ g'. h ((n, between (w ++ s) s) ∷ g'))
  run-Gives eps b w s g k m h = empty-Gives b w s g k (λ _. true) m refl h
  run-Gives text_start b w s g k m h = empty-Gives b w s g k (λ _. is_empty b) m.0 m.1 h
  run-Gives text_end b w s g k m h = empty-Gives b w s g k is_empty m.0 m.1 h
  run-Gives line_end b w s g k m h = empty-Gives b w s g k ends_line m.0 m.1 h
  run-Gives word_edge b w s g k m h = empty-Gives b w s g k (at_word_edge b) m.0 m.1 h

-- A whole match, with nothing left on either side of the expression's own tests.
abbrev pub Found : Re → Str → Type 0
Found r t = (u w s : Str) × (t ≡ u ++ (w ++ s)) × Matches r (passed [] u) w s

pub FoundFrom : Re → Str → Str → Type 0
FoundFrom r b t = (u w s : Str) × (t ≡ u ++ (w ++ s)) × Matches r (passed b u) w s

exec_from-FoundFrom :
    (r : Re) (n : ℕ) (b t : Str) {m : ℕ × Place} → exec_from r n b t ≡ some m → FoundFrom r b t
unfolding exec_from FoundFrom
exec_from-FoundFrom r n b [] e = elim (Option-cases (run r (place b []) some)) [
  | inl miss ↦ ground arith
  | inr (p, hit) ↦
      let (w, s, g, split, m, _) = run-Ran r (place b []) some p hit in ([], w, s, split, m)
]
exec_from-FoundFrom r n b (x ∷ xs) {m} e = elim (Option-cases (run r (place b (x ∷ xs)) some)) [
  | inl miss ↦
      let (u, w, s, split, m') = exec_from-FoundFrom r (suc n) (x ∷ b) xs {m = m} (ground arith) in
      (x ∷ u, w, s, ap (x ∷◌) split, m')
  | inr (p, hit) ↦
      let (w, s, g, split, m', _) = run-Ran r (place b (x ∷ xs)) some p hit in ([], w, s, split, m')
]

exec_from_here :
    (r : Re) (n : ℕ) (b t : Str)
    → (p : Place) × (run r (place b t) some ≡ some p)
    → (m : ℕ × Place) × (exec_from r n b t ≡ some m)
unfolding exec_from
exec_from_here r n b [] (p, hit) = ((n, p), rw (hit, exec_from))
exec_from_here r n b (x ∷ xs) (p, hit) = ((n, p), rw (hit, exec_from))

exec_from-Gives :
    (r : Re) (n : ℕ) (b u w s : Str)
    → Matches r (passed b u) w s
    → (m : ℕ × Place) × (exec_from r n b (u ++ (w ++ s)) ≡ some m)
unfolding exec_from
exec_from-Gives r n b [] w s m =
    exec_from_here r n b (w ++ s) (run-Gives r b w s [] some m (λ g. (_, refl)))
exec_from-Gives r n b (x ∷ u) w s m =
    let (m', e) = exec_from-Gives r (suc n) (x ∷ b) u w s m in
    elim (Option-cases (run r (place b (x ∷ (u ++ (w ++ s)))) some)) [
      | inl miss ↦ (m', rw (miss, exec_from, e))
      | inr (p, hit) ↦ ((n, p), rw (hit, exec_from))
    ]

-- `re.test(s)` is true exactly where some stretch of the text is taken by the expression.
pub test-Found : (r : Re) (t : Str) → (test r t ≡ true) ↔ Found r t
unfolding test exec FoundFrom
test-Found r t = (
  λ e. elim (Option-cases (exec_from r 0 [] t)) [
    | inl miss ↦ ground arith
    | inr (m, hit) ↦ exec_from-FoundFrom r 0 [] t hit
  ],
  λ (u, w, s, split, m). let (m', e) = exec_from-Gives r 0 [] u w s m in rw (split, e, test),
)
