-- ===== src/Tests/Edge.antt =====
-- The theorems on the Worker, applied to a bucket that holds one of the files.
use bashtion_wasm.Base.{
  ◌≡◌, ◌↔◌, refl, true, false, List, [], ◌∷◌, Option, none, some, All, codes, Str, str_eq,
  if◌then◌else◌,
}
use bashtion_wasm.Worker.Http.{R2Range, Object, Request, Env}
use bashtion_wasm.Whitespace.{trim_start, trim_back}
use bashtion_wasm.Worker.Number.{
  pos, negsuc, whole, rounded, magnitude, nearest, spacing_from, add, subtract,
}
use bashtion_wasm.Worker.Range.{
  parse_range, both_numbers, after_prefix, second_number, span_digits, closed, range_of, number,
  number_from,
}
use mathlib.Core.Path.{subst}
use bashtion_wasm.Base.{Bool-cases, inl, inr, arith}
use bashtion_wasm.Worker.{Spec, find_spec, spec_for, r2_files, fetch}
use bashtion_wasm.Worker.Cache.{
  IsTrue, Event, visit, evict, edge, edge-IsTrue, untagged, fetch-edge,
}
use bashtion_wasm.Worker.Requests.{Agree, fetch-Agree}
use bashtion_wasm.Worker.Asks.{few_digits, Asks, parse_range-Asks}

abbrev state_file : Object
state_file = record {
  size = 3;
  body = some (codes "abc");
  range = none;
  write_http_metadata = λ hs. hs;
}

abbrev holding : Str → Option Object → Env
holding key other = record {
  pathname = λ url. url;
  assets = λ req. record { status = 200; headers = []; body = some req.url };
  get = λ k.
      if str_eq k (codes "load-state.v4.data")
      then some state_file
      else if str_eq k key
      then other
      else none;
  get_with =
      λ k range headers. if str_eq k (codes "load-state.v4.data") then some state_file else none;
}

abbrev site : Env
site = holding (codes "secret") none

abbrev get_state : Request
get_state = record {
  url = codes "/load-state.v4.data";
  method = codes "GET";
  headers = [];
  range = none;
}

abbrev visits : List Event
visits = visit get_state true ∷ visit get_state false ∷ evict 1 ∷ []

edge-IsTrue_example : All (IsTrue site) (edge site [] visits)
edge-IsTrue_example = edge-IsTrue site visits

fetch-edge_example :
    untagged (fetch site (edge site [] visits) get_state).response
    ≡ untagged (fetch site [] get_state).response
fetch-edge_example = fetch-edge site visits get_state

abbrev tenth_block : R2Range
tenth_block = R2Range.offset_length (whole (pos 1000)) (whole (pos 100))

parse_range-Asks_example :
    (parse_range (codes " bytes=1000-1099") ≡ some tenth_block)
    ↔ Asks (codes " bytes=1000-1099") tenth_block
unfolding few_digits trim_start trim_back
parse_range-Asks_example = parse_range-Asks (codes " bytes=1000-1099") tenth_block refl

-- The end is before the start, and 2^53 + 1 is not a double.
backwards :
    parse_range (codes "bytes=5-2")
    ≡ some (R2Range.offset_length (whole (pos 5)) (whole (negsuc 1)))
unfolding parse_range both_numbers after_prefix second_number span_digits closed range_of number
    number_from rounded magnitude nearest spacing_from add subtract trim_start trim_back
backwards = refl

rounding :
    parse_range (codes "bytes=-9007199254740993")
    ≡ some (R2Range.suffix (whole (pos 9007199254740992)))
unfolding parse_range both_numbers after_prefix second_number span_digits closed range_of number
    number_from rounded magnitude nearest spacing_from trim_start trim_back
rounding = refl

-- A bucket that holds another file as well.
abbrev fuller : Env
fuller = holding (codes "secret") (some state_file)

find_spec-All :
    (P : Spec → Type 0) (fs : List Spec) (path : Str) (spec : Spec)
    → All P fs
    → find_spec fs path ≡ some spec
    → P spec
unfolding find_spec
find_spec-All P [] path spec h e = absurd (cc)
find_spec-All P (f ∷ fs) path spec h e = elim (Bool-cases (str_eq f.path path)) [
  | inl here ↦ subst P (ground arith) h.0
  | inr later ↦ find_spec-All P fs path spec h.1 (ground arith)
]

listed-not_secret :
    (path : Str) (spec : Spec)
    → spec_for path ≡ some spec
    → str_eq spec.key (codes "secret") ≡ false
unfolding spec_for str_eq
listed-not_secret path spec =
    find_spec-All (λ f. str_eq f.key (codes "secret") ≡ false) r2_files path spec
      (refl, (refl, (refl, tt)))

site-fuller : Agree site fuller
site-fuller = record {
  same_paths = λ url. refl;
  same_assets = λ req. refl;
  same_objects = λ path spec e. rw (listed-not_secret path spec e);
  same_parts = λ path spec range headers e. refl;
}

fetch-Agree_example : fetch site [] get_state ≡ fetch fuller [] get_state
fetch-Agree_example = fetch-Agree site fuller [] get_state site-fuller
