-- ===== src/Worker/Requests.antt =====
-- Which of the keys of the bucket a request reads.
use bashtion_wasm.Base.{
  ◌≡◌, refl, ap, List, Option, none, some, Option-cases, inl, inr, Str, if◌then◌else◌, not, ◌||◌,
}
use mathlib.Core.Path.{ap₂}
use bashtion_wasm.Worker.Http.{Response, R2Range, Headers, Request, Env}
use bashtion_wasm.Worker.Range.{parse_range}
use bashtion_wasm.Worker.{
  Spec, spec_for, Entry, match_entry, Outcome, on_match, full_get, read_r2, serve_from_r2, serve,
  fetch, range_header, is_get, is_head, is_some, only, not_found, not_allowed, by_range, by_header,
  serve_object, serve_whole,
}

-- Two platforms whose buckets may differ, but not on the keys of the allowlist.
pub record Agree (env other : Env) : Type 0 where
  pub same_paths : (url : Str) → env.pathname url ≡ other.pathname url
  pub same_assets : (req : Request) → env.assets req ≡ other.assets req
  pub same_objects :
      (path : Str) (spec : Spec) → spec_for path ≡ some spec → env.get spec.key ≡ other.get spec.key
  pub same_parts :
      (path : Str) (spec : Spec) (range : Option R2Range) (headers : Headers)
      → spec_for path ≡ some spec
      → env.get_with spec.key range headers ≡ other.get_with spec.key range headers

module _ {env other : Env} (a : Agree env other) (req : Request) (spec : Spec)
    (listed : spec_for (other.pathname req.url) ≡ some spec) where
  read_r2-Agree :
      (range : Option R2Range) → read_r2 env req spec range ≡ read_r2 other req spec range
  unfolding read_r2
  read_r2-Agree range =
      ap
        (λ o. elim o as (λ _. Response) [
          | none ↦ not_found
          | some object ↦ serve_object req spec range object
        ])
        (a.same_parts (other.pathname req.url) spec range req.headers listed)

  by_range-Agree :
      (range : Option R2Range) → by_range env req spec range ≡ by_range other req spec range
  unfolding by_range
  by_range-Agree none = refl
  by_range-Agree (some range) = read_r2-Agree (some range)

  by_header-Agree :
      (header : Option Str) → by_header env req spec header ≡ by_header other req spec header
  unfolding by_header
  by_header-Agree none = read_r2-Agree none
  by_header-Agree (some header) = by_range-Agree (parse_range header)

  on_match-Agree :
      (hit : Option Response) → on_match env req.url spec hit ≡ on_match other req.url spec hit
  unfolding on_match full_get
  on_match-Agree (some hit) = refl
  on_match-Agree none =
      ap
        (λ o. elim o as (λ _. Outcome) [
          | none ↦ only not_found
          | some object ↦ serve_whole req.url spec object
        ])
        (a.same_objects (other.pathname req.url) spec listed)

  serve-Agree : (cache : List Entry) → serve env cache req spec ≡ serve other cache req spec
  unfolding serve serve_from_r2
  serve-Agree cache =
      ap₂
        (λ r (o : Outcome).
          if not (is_get req || is_head req)
          then only not_allowed
          else if is_some (range_header req) || is_head req
          then only r
          else o)
        (by_header-Agree (range_header req)) (on_match-Agree (match_entry cache req.url))

-- The bucket is read under the keys of the allowlist alone: two buckets that agree on those keys
-- give the same response, and the same copy for the cache, to every request, whatever else the one
-- or the other holds.
pub fetch-Agree :
    (env other : Env) (cache : List Entry) (req : Request)
    → Agree env other
    → fetch env cache req ≡ fetch other cache req
unfolding fetch
fetch-Agree env other cache req a = elim (Option-cases (spec_for (other.pathname req.url))) [
  | inl unlisted ↦ rw (a.same_paths req.url, unlisted, fetch) (ap only (a.same_assets req))
  | inr (spec, listed) ↦
      rw (a.same_paths req.url, listed, fetch) (serve-Agree a req spec listed cache)
]
