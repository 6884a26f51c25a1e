-- ===== src/Whitespace.antt =====
-- JavaScript's `trim()`.
use bashtion_wasm.Base.{[], ◌∷◌, Str, if◌then◌else◌}
use bashtion_wasm.Regex.{space}

unfoldable pub trim_start : Str → Str
trim_start [] = []
trim_start (c ∷ cs) = let rest = trim_start cs in if space c then rest else c ∷ cs

unfoldable pub trim_back : Str → Str
trim_back [] = []
trim_back (c ∷ cs) = elim (trim_back cs) [
  | [] ↦ if space c then [] else c ∷ []
  | d ∷ ds ↦ c ∷ d ∷ ds
]

abbrev pub trim : Str → Str
trim s = trim_back (trim_start s)
