-- ===== src/Steps/Triples.antt =====
-- Triples: what holds behind a step that returns, by its value, and behind one that throws.
use bashtion_wasm.Base.{Option, none, some}
use bashtion_wasm.Steps.{StepOn, give, follow, ◌>>=◌, finally}

abbrev pub Ends : {C A : Type 0} → (A → C → Type 0) → (C → Type 0) → Option A → C → Type 0
Ends Q X none c = X c
Ends Q X (some a) c = Q a c

pub record Triple {C A : Type 0} (P : C → Type 0) (Q : A → C → Type 0) (X : C → Type 0)
    (m : StepOn C A) : Type 0 where
  pub ends : (c : C) → P c → Ends Q X (m c).value (m c).console

follow-Triple :
    {C A B : Type 0} (Q : A → C → Type 0) (R : B → C → Type 0) (X : C → Type 0) (f : A → StepOn C B)
    → ((a : A) → Triple (Q a) R X (f a))
    → (v : Option A) (c : C) → Ends Q X v c
    → Ends R X (follow f v c).value (follow f v c).console
follow-Triple Q R X f k none c h = h
follow-Triple Q R X f k (some a) c h = (k a).ends c h

pub bind-Triple :
    {C A B : Type 0} {P : C → Type 0} {Q : A → C → Type 0} {R : B → C → Type 0} {X : C → Type 0}
    {m : StepOn C A} {f : A → StepOn C B}
    → Triple P Q X m
    → ((a : A) → Triple (Q a) R X (f a))
    → Triple P R X (m >>= f)
bind-Triple {C} {A} {B} {P} {Q} {R} {X} {m} {f} h k = record {
  ends = λ c p. follow-Triple Q R X f k (m c).value (m c).console (h.ends c p);
}

pub give-Triple :
    {C A : Type 0} {P : C → Type 0} (Q : A → C → Type 0) (X : C → Type 0) (a : A)
    → ((c : C) → P c → Q a c)
    → Triple P Q X (give a)
give-Triple Q X a h = record { ends = λ c p. h c p }

settled_with :
    {C A : Type 0} (S : A → C → Type 0) (Y : C → Type 0) (v : Option A) (c : C) (u : Option Unit)
    → Ends {A = Unit} (λ t d. Ends S Y v d) Y u c
    → Ends S Y (elim u [ none ↦ none | some _ ↦ v ]) c
settled_with S Y v c none h = h
settled_with S Y v c (some x) h = h

-- The cleanup takes what the body ends with to what the whole ends with.
pub finally-Triple :
    {C A : Type 0} {P : C → Type 0} (Q : A → C → Type 0) (X : C → Type 0) (S : A → C → Type 0)
    (Y : C → Type 0) {m : StepOn C A} {r : StepOn C Unit}
    → Triple P Q X m
    → ((v : Option A) → Triple (Ends Q X v) (λ t. Ends S Y v) Y r)
    → Triple P S Y (finally m r)
finally-Triple Q X S Y {m} {r} h k = record {
  ends = λ c p.
      let o = r (m c).console in
      settled_with S Y (m c).value o.console o.value
        ((k (m c).value).ends (m c).console (h.ends c p));
}

-- With less to begin with, and more to end with.
pub weaken-Triple :
    {C A : Type 0} {P P' : C → Type 0} {Q : A → C → Type 0} {X : C → Type 0} {m : StepOn C A}
    → ((c : C) → P' c → P c)
    → Triple P Q X m
    → Triple P' Q X m
weaken-Triple f h = record { ends = λ c p. h.ends c (f c p) }

Ends-map :
    {C A : Type 0} (Q Q' : A → C → Type 0) (X : C → Type 0)
    → ((a : A) (c : C) → Q a c → Q' a c)
    → (v : Option A) (c : C) → Ends Q X v c
    → Ends Q' X v c
Ends-map Q Q' X f none c h = h
Ends-map Q Q' X f (some a) c h = f a c h

pub post-Triple :
    {C A : Type 0} {P : C → Type 0} (Q Q' : A → C → Type 0) {X : C → Type 0} {m : StepOn C A}
    → ((a : A) (c : C) → Q a c → Q' a c)
    → Triple P Q X m
    → Triple P Q' X m
post-Triple Q Q' {X} {m} f h = record {
  ends = λ c p. Ends-map Q Q' X f (m c).value (m c).console (h.ends c p);
}

leave_by :
    {C A : Type 0} (Q : A → C → Type 0) (X X' : C → Type 0)
    → ((c : C) → X c → X' c)
    → (v : Option A) (c : C) → Ends Q X v c
    → Ends Q X' v c
leave_by Q X X' f none c h = f c h
leave_by Q X X' f (some a) c h = h

pub exit-Triple :
    {C A : Type 0} {P : C → Type 0} {Q : A → C → Type 0} (X X' : C → Type 0) {m : StepOn C A}
    → ((c : C) → X c → X' c)
    → Triple P Q X m
    → Triple P Q X' m
exit-Triple {Q = Q} X X' {m} f h = record {
  ends = λ c p. leave_by Q X X' f (m c).value (m c).console (h.ends c p);
}
