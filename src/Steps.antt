-- ===== src/Steps.antt =====
-- Operations in steps, which the modules of web/serialfs.js share: an `async` function takes the state
-- of the console and gives it back, with a value unless an exception is on its way.
pub mod Rules
pub mod Triples
use bashtion_wasm.Base.{Option, none, some}

-- How a step ends: `none` is an exception.
pub record OutcomeOn (C A : Type 0) : Type 0 where
  pub console : C
  pub value : Option A

abbrev pub StepOn : Type 0 → Type 0 → Type 0
StepOn C A = C → OutcomeOn C A

abbrev pub give : {C A : Type 0} → A → StepOn C A
give a c = record { console = c; value = some a }

abbrev pub follow : {C A B : Type 0} → (A → StepOn C B) → Option A → C → OutcomeOn C B
follow f none c = record { console = c; value = none }
follow f (some a) c = f a c

infixl 12 ◌>>=◌
abbrev pub ◌>>=◌ : {C A B : Type 0} → StepOn C A → (A → StepOn C B) → StepOn C B
(m >>= f) c = follow f (m c).value (m c).console

-- `try { body } finally { cleanup }`: an exception of the cleanup takes the place of the body's end.
abbrev pub settle : {C A : Type 0} → Option A → OutcomeOn C Unit → OutcomeOn C A
settle v o = record { console = o.console; value = elim o.value [ none ↦ none | some _ ↦ v ] }

abbrev pub finally : {C A : Type 0} → StepOn C A → StepOn C Unit → StepOn C A
finally body cleanup c = settle (body c).value (cleanup (body c).console)
