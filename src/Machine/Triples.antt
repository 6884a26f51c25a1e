-- ===== src/Machine/Triples.antt =====
-- Only a paste throws.
use bashtion_wasm.Base.{ℕ, ◌≡◌, true}
use bashtion_wasm.Machine.{World}
pub use bashtion_wasm.Steps.Rules.{
  Keeps, bind-Keeps, then-Keeps, give-Keeps, finally-Keeps, Leads, bind-Leads, Returned, Gets,
  Returned-of, bind-Gets, Gets-bind, finally-Gets, Tame, bind-Tame, then-Tame, give-Tame,
  finally-Tame,
}

-- Some paste throws in the world.
abbrev pub Threw : World → Type 0
Threw w = (t : ℕ) × (w.throws t ≡ true)
