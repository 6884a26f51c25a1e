-- ===== src/Worker/Http.antt =====
-- deploy/worker.js: the parts of the Fetch and R2 interfaces that the Worker uses.
use bashtion_wasm.Base.{
  ℕ, List, [], ◌∷◌, Option, ◌≡◌, ap, Bool-cases, inl, inr, Str, str_eq, str_eq_refl, if◌then◌else◌,
}
use bashtion_wasm.Worker.Number.{ℤ, Double}

-- A header's value: a text, or what a template string makes of its numbers.
pub data Value : Type 0 where
  words : Str → Value
  decimal : ℕ → Value
  content_range : ℕ → ℤ → ℕ → Value

pub record Header : Type 0 where
  pub name : Str
  pub value : Value

abbrev pub Headers : Type 0
Headers = List Header

-- `headers.set(name, value)`.
unfoldable pub set_header : Str → Value → Headers → Headers
set_header name value [] = record { name = name; value = value } ∷ []
set_header name value (h ∷ hs) =
    let rest = set_header name value hs in
    if str_eq h.name name then record { name = name; value = value } ∷ hs else h ∷ rest

pub record Response : Type 0 where
  pub status : ℕ
  pub headers : Headers
  pub body : Option Str

-- The `range` option of `BUCKET.get`: `{ suffix }`, `{ offset }` or `{ offset, length }`.
pub data R2Range : Type 0 where
  suffix : Double → R2Range
  offset : Double → R2Range
  offset_length : Double → Double → R2Range

-- `object.range`, whose fields may be missing.
pub record Span : Type 0 where
  pub offset : Option ℕ
  pub length : Option ℕ

-- An R2 object. `write_http_metadata` is what `object.writeHttpMetadata` does to headers.
pub record Object : Type 0 where
  pub size : ℕ
  pub body : Option Str
  pub range : Option Span
  pub write_http_metadata : Headers → Headers

-- `new URL(request.url).pathname` is kept as `pathname`.
pub record Request : Type 0 where
  pub url : Str
  pub method : Str
  pub headers : Headers
  pub range : Option Str

-- The platform: its URL parser, the static assets and the bucket, read whole or with options.
pub record Env : Type 0 where
  pub pathname : Str → Str
  pub assets : Request → Response
  pub get : Str → Option Object
  pub get_with : Str → Option R2Range → Headers → Option Object

-- Setting a header twice keeps the second value.
pub set_header-set_header :
    (name : Str) (v w : Value) (hs : Headers)
    → set_header name v (set_header name w hs) ≡ set_header name v hs
unfolding set_header
set_header-set_header name v w [] = rw (str_eq_refl name)
set_header-set_header name v w (h ∷ hs) = elim (Bool-cases (str_eq h.name name)) [
  | inl same ↦ rw (same, set_header, str_eq_refl name)
  | inr other ↦ rw other (rw other (ap (h ∷◌) (set_header-set_header name v w hs)))
]
