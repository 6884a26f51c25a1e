-- ===== src/Steps/Rules.antt =====
-- Rules for the steps of an operation: what they keep, what holds where they return, and when
-- they throw.
use bashtion_wasm.Base.{◌≡◌, refl, sym, ap, ◌∙◌, Option, none, some}
use bashtion_wasm.Steps.{OutcomeOn, StepOn, give, follow, ◌>>=◌, settle, finally}

-- However a step ends, it keeps a property of the console.
pub record Keeps {C : Type 0} (I : C → Type 0) {A : Type 0} (m : StepOn C A) : Type 0 where
  pub keeps : (c : C) → I c → I (m c).console

follow-Keeps :
    {C A B : Type 0} (I : C → Type 0) (f : A → StepOn C B)
    → ((a : A) → Keeps I (f a))
    → (v : Option A) (c : C) → I c
    → I (follow f v c).console
follow-Keeps I f k none c h = h
follow-Keeps I f k (some a) c h = (k a).keeps c h

pub bind-Keeps :
    {C A B : Type 0} {I : C → Type 0} {m : StepOn C A} {f : A → StepOn C B}
    → Keeps I m
    → ((a : A) → Keeps I (f a))
    → Keeps I (m >>= f)
bind-Keeps {C} {A} {B} {I} {m} {f} h k = record {
  keeps = λ c i. follow-Keeps I f k (m c).value (m c).console (h.keeps c i);
}

pub then-Keeps :
    {C A B : Type 0} {I : C → Type 0} {m : StepOn C A} {n : StepOn C B}
    → Keeps I m
    → Keeps I n
    → Keeps I (m >>= λ _. n)
then-Keeps h k = bind-Keeps h (λ _. k)

-- A step that begins with one property and ends with another, and steps that keep the latter.
pub record Leads {C : Type 0} (J I : C → Type 0) {A : Type 0} (m : StepOn C A) : Type 0 where
  pub leads : (c : C) → J c → I (m c).console

pub bind-Leads :
    {C A B : Type 0} {J I : C → Type 0} {m : StepOn C A} {f : A → StepOn C B}
    → Leads J I m
    → ((a : A) → Keeps I (f a))
    → Leads J I (m >>= f)
bind-Leads {C} {A} {B} {J} {I} {m} {f} h k = record {
  leads = λ c j. follow-Keeps I f k (m c).value (m c).console (h.leads c j);
}

pub give-Keeps : {C A : Type 0} (I : C → Type 0) (a : A) → Keeps I (give a)
give-Keeps I a = record { keeps = λ c i. i }

pub finally-Keeps :
    {C A : Type 0} {I : C → Type 0} {m : StepOn C A} {r : StepOn C Unit}
    → Keeps I m
    → Keeps I r
    → Keeps I (finally m r)
finally-Keeps {C} {A} {I} {m} {r} h k = record {
  keeps = λ c i. k.keeps (m c).console (h.keeps c i);
}

-- A property of the console where a step has returned.
abbrev pub Returned : {C A : Type 0} → (C → Type 0) → Option A → C → Type 0
Returned Q none c = Unit
Returned Q (some a) c = Q c

-- A step that begins with one property and returns with another.
pub record Gets {C : Type 0} (J Q : C → Type 0) {A : Type 0} (m : StepOn C A) : Type 0 where
  pub gets : (c : C) → J c → Returned Q (m c).value (m c).console

pub Returned-of : {C A : Type 0} (Q : C → Type 0) (v : Option A) (c : C) → Q c → Returned Q v c
Returned-of Q none c q = tt
Returned-of Q (some a) c q = q

follow-Gets :
    {C A B : Type 0} {J : C → Type 0} (Q : C → Type 0) (f : A → StepOn C B)
    → ((a : A) → Gets J Q (f a))
    → (v : Option A) (c : C) → J c
    → Returned Q (follow f v c).value (follow f v c).console
follow-Gets Q f k none c j = tt
follow-Gets Q f k (some a) c j = (k a).gets c j

pub bind-Gets :
    {C A B : Type 0} {J Q : C → Type 0} {m : StepOn C A} {f : A → StepOn C B}
    → Keeps J m
    → ((a : A) → Gets J Q (f a))
    → Gets J Q (m >>= f)
bind-Gets {C} {A} {B} {J} {Q} {m} {f} h k = record {
  gets = λ c j. follow-Gets Q f k (m c).value (m c).console (h.keeps c j);
}

got_then :
    {C A B : Type 0} (Q : C → Type 0) (f : A → StepOn C B)
    → ((a : A) → Keeps Q (f a))
    → (v : Option A) (c : C) → Returned Q v c
    → Returned Q (follow f v c).value (follow f v c).console
got_then Q f k none c q = tt
got_then Q f k (some a) c q = Returned-of Q (f a c).value (f a c).console ((k a).keeps c q)

pub Gets-bind :
    {C A B : Type 0} {J Q : C → Type 0} {m : StepOn C A} {f : A → StepOn C B}
    → Gets J Q m
    → ((a : A) → Keeps Q (f a))
    → Gets J Q (m >>= f)
Gets-bind {C} {A} {B} {J} {Q} {m} {f} h k = record {
  gets = λ c j. got_then Q f k (m c).value (m c).console (h.gets c j);
}

settle-Gets :
    {C A : Type 0} (Q : C → Type 0) (v : Option A) (o : OutcomeOn C Unit) (u : Option Unit)
    → o.value ≡ u
    → Returned Q u o.console
    → Returned Q (elim u [ none ↦ none | some _ ↦ v ]) o.console
settle-Gets Q v o none e q = tt
settle-Gets Q v o (some x) e q = Returned-of Q v o.console q

-- What a cleanup returns with is what the whole returns with.
pub finally-Gets :
    {C A : Type 0} {J Q : C → Type 0} (m : StepOn C A) {r : StepOn C Unit}
    → ((c : C) → J c)
    → Gets J Q r
    → Gets J Q (finally m r)
finally-Gets {C} {A} {J} {Q} m {r} always h = record {
  gets = λ c j.
      let o = r (m c).console in
      settle-Gets Q (m c).value o o.value refl (h.gets (m c).console (always (m c).console));
}

-- A step throws only where `T` holds.
pub record Tame (T : Type 0) {C A : Type 0} (m : StepOn C A) : Type 0 where
  pub tame : (c : C) → (m c).value ≡ none → T

follow-Tame :
    {C A B : Type 0} (T : Type 0) (f : A → StepOn C B)
    → ((a : A) → Tame T (f a))
    → (v : Option A) (c : C) → (v ≡ none → T)
    → (follow f v c).value ≡ none
    → T
follow-Tame T f k none c h e = h refl
follow-Tame T f k (some a) c h e = (k a).tame c e

pub bind-Tame :
    {C A B : Type 0} {T : Type 0} {m : StepOn C A} {f : A → StepOn C B}
    → Tame T m
    → ((a : A) → Tame T (f a))
    → Tame T (m >>= f)
bind-Tame {C} {A} {B} {T} {m} {f} h k = record {
  tame = λ c e. follow-Tame T f k (m c).value (m c).console (h.tame c) e;
}

pub then-Tame :
    {C A B : Type 0} {T : Type 0} {m : StepOn C A} {n : StepOn C B}
    → Tame T m
    → Tame T n
    → Tame T (m >>= λ _. n)
then-Tame h k = bind-Tame h (λ _. k)

pub give-Tame : {C A : Type 0} (T : Type 0) (a : A) → Tame T {C = C} (give a)
give-Tame T a = record { tame = λ c e. absurd (cc) }

settle-Tame :
    {C A : Type 0} (T : Type 0) (v : Option A) (o : OutcomeOn C Unit)
    → (v ≡ none → T)
    → (u : Option Unit) → (u ≡ none → T)
    → o.value ≡ u
    → (settle v o).value ≡ none
    → T
settle-Tame T v o h none k e g = k refl
settle-Tame {A = A} T v o h (some x) k e g =
    h (sym (ap (λ u. elim u as (λ _. Option A) [ none ↦ none | some _ ↦ v ]) e) ∙ g)

pub finally-Tame :
    {C A : Type 0} {T : Type 0} {m : StepOn C A} {r : StepOn C Unit}
    → Tame T m
    → Tame T r
    → Tame T (finally m r)
finally-Tame {C} {A} {T} {m} {r} h k = record {
  tame = λ c e.
      settle-Tame T (m c).value (r (m c).console) (h.tame c) (r (m c).console).value
        (k.tame (m c).console) refl e;
}
