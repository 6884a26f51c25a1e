-- ===== src/Worker/Cache.antt =====
-- The edge cache never changes what the Worker serves.
use bashtion_wasm.Base.{
  if_keep, if◌then◌else◌, ℕ, zero, suc, ◌≤◌, ◌≡◌, refl, sym, ◌∙◌, ap, Bool, List, [], ◌∷◌, Option,
  none, some, All, remove_at, codes, leb, leb→le, arith, Bool-cases, Option-cases, inl, inr, Str,
  str_eq, str_eq_sound, not, ◌||◌,
}
use bashtion_wasm.Worker.Http.{words, set_header-set_header, Response, Object, Request, Env}
use bashtion_wasm.Worker.{
  Spec, spec_for, on_match, cache_max_bytes, Entry, match_entry, Outcome, tag, full_response,
  serve_whole, full_get, serve, fetch, range_header, is_get, is_head, is_some,
}

-- An entry holds what the bucket has for its URL, and no more than may be stored.
pub record IsTrue (env : Env) (e : Entry) : Type 0 where
  pub spec : Spec
  pub object : Object
  pub listed : spec_for (env.pathname e.url) ≡ some spec
  pub held : env.get spec.key ≡ some object
  pub whole : e.response ≡ full_response spec object
  pub small : object.size ≤ cache_max_bytes

abbrev OfferIsTrue : Env → Option Entry → Type 0
OfferIsTrue env none = Unit
OfferIsTrue env (some e) = IsTrue env e

abbrev pub keep : Option Entry → List Entry → List Entry
keep none cache = cache
keep (some e) cache = e ∷ cache

full_get-offer :
    (env : Env) (url : Str) (spec : Spec)
    → spec_for (env.pathname url) ≡ some spec
    → OfferIsTrue env (full_get env url spec).offered
unfolding full_get serve_whole
full_get-offer env url spec listed = elim (Option-cases (env.get spec.key)) [
  | inl missing ↦ rw (missing, OfferIsTrue) tt
  | inr (object, held) ↦ elim (Bool-cases (leb object.size cache_max_bytes)) [
    | inr large ↦ rw (held, large, OfferIsTrue) tt
    | inl fits ↦
        rw (held, fits, OfferIsTrue)
          (record {
            spec = spec;
            object = object;
            listed = listed;
            held = held;
            whole = refl;
            small = leb→le object.size cache_max_bytes fits;
          })
  ]
]

match-IsTrue :
    (env : Env) (cache : List Entry) (url : Str) (hit : Response)
    → All (IsTrue env) cache
    → match_entry cache url ≡ some hit
    → (e : Entry) × ((e.url ≡ url) × (e.response ≡ hit) × IsTrue env e)
unfolding match_entry
match-IsTrue env [] url hit h m = absurd (cc)
match-IsTrue env (e ∷ es) url hit h m = elim (Bool-cases (str_eq e.url url)) [
  | inl same ↦ (e, (str_eq_sound e.url url same, ground arith, h.0))
  | inr other ↦ match-IsTrue env es url hit h.1 (ground arith)
]

serve-offer :
    (env : Env) (cache : List Entry) (req : Request) (spec : Spec)
    → spec_for (env.pathname req.url) ≡ some spec
    → OfferIsTrue env (serve env cache req spec).offered
unfolding serve on_match
serve-offer env cache req spec listed =
    if_keep (λ (o : Outcome). OfferIsTrue env o.offered) (not (is_get req || is_head req)) tt
      (if_keep (λ (o : Outcome). OfferIsTrue env o.offered)
        (is_some (range_header req) || is_head req) tt
        (elim (match_entry cache req.url)
          as (λ m. OfferIsTrue env (on_match env req.url spec m).offered) [
            | none ↦ full_get-offer env req.url spec listed
            | some hit ↦ tt
          ]))

pub fetch-offer :
    (env : Env) (cache : List Entry) (req : Request) → OfferIsTrue env (fetch env cache req).offered
unfolding fetch
fetch-offer env cache req = elim (Option-cases (spec_for (env.pathname req.url))) [
  | inl unlisted ↦ rw (unlisted, fetch, OfferIsTrue) tt
  | inr (spec, listed) ↦ rw (listed, fetch) (serve-offer env cache req spec listed)
]

-- Both ways of answering a full GET, but for the tag.
abbrev pub untagged : Response → Response
untagged r = tag [] r

untag-tag : (v : Str) (r : Response) → untagged (tag v r) ≡ untagged r
untag-tag v r = rw (set_header-set_header (codes "x-bashtion-cache") (words []) (words v) r.headers)

serve_whole-untagged :
    (url : Str) (spec : Spec) (object : Object)
    → untagged (serve_whole url spec object).response ≡ untagged (full_response spec object)
unfolding serve_whole
serve_whole-untagged url spec object = elim (Bool-cases (leb object.size cache_max_bytes)) [
  | inl fits ↦ rw fits (untag-tag (codes "MISS") (full_response spec object))
  | inr large ↦ rw large (untag-tag (codes "UNCACHED") (full_response spec object))
]

full_get-held :
    (env : Env) (url : Str) (spec : Spec) (object : Object)
    → env.get spec.key ≡ some object
    → full_get env url spec ≡ serve_whole url spec object
unfolding full_get
full_get-held env url spec object held = rw (held, full_get)

-- A hit, against what the bucket would have given.
hit-untagged :
    (env : Env) (url : Str) (spec : Spec) (hit : Response) (e : Entry)
    → spec_for (env.pathname url) ≡ some spec
    → e.url ≡ url
    → e.response ≡ hit
    → IsTrue env e
    → untagged (tag (codes "HIT") hit) ≡ untagged (full_get env url spec).response
hit-untagged env url spec hit e listed at_url is_hit t =
    let same : t.spec ≡ spec = ground (arith, t.listed) in
    untag-tag (codes "HIT") hit
    ∙ ap untagged (sym is_hit ∙ t.whole ∙ ap (λ s. full_response s t.object) same)
    ∙ sym (serve_whole-untagged url spec t.object)
    ∙ ap (λ (o : Outcome). untagged o.response)
        (sym (
          full_get-held env url spec t.object
            (ap (λ (s : Spec). env.get s.key) (sym same) ∙ t.held)))

serve-untagged :
    (env : Env) (cache : List Entry) (req : Request) (spec : Spec)
    → All (IsTrue env) cache
    → spec_for (env.pathname req.url) ≡ some spec
    → untagged (serve env cache req spec).response ≡ untagged (serve env [] req spec).response
unfolding serve match_entry on_match
serve-untagged env cache req spec h listed = elim (Bool-cases (not (is_get req || is_head req))) [
  | inl other ↦ rw (other, serve)
  | inr known ↦ elim (Bool-cases (is_some (range_header req) || is_head req)) [
    | inl direct ↦ rw (known, direct, serve)
    | inr full ↦ elim (Option-cases (match_entry cache req.url)) [
      | inl miss ↦ rw (known, full, miss, serve, match_entry)
      | inr (hit, found) ↦
          let (e, (at_url, is_hit, t)) = match-IsTrue env cache req.url hit h found in
          rw (known, full, found, serve, match_entry)
            (hit-untagged env req.url spec hit e listed at_url is_hit t)
    ]
  ]
]

fetch-untagged :
    (env : Env) (cache : List Entry) (req : Request)
    → All (IsTrue env) cache
    → untagged (fetch env cache req).response ≡ untagged (fetch env [] req).response
unfolding fetch
fetch-untagged env cache req h = elim (Option-cases (spec_for (env.pathname req.url))) [
  | inl unlisted ↦ rw (unlisted, fetch)
  | inr (spec, listed) ↦ rw (listed, fetch) (serve-untagged env cache req spec h listed)
]

-- What happens at an edge: a request whose copy lands in the cache or does not, or an eviction.
pub data Event : Type 0 where
  visit : Request → Bool → Event
  evict : ℕ → Event

pub on_event : Env → List Entry → Event → List Entry
on_event env cache (visit req lands) =
    if lands then keep (fetch env cache req).offered cache else cache
on_event env cache (evict i) = remove_at cache i

pub edge : Env → List Entry → List Event → List Entry
edge env cache [] = cache
edge env cache (e ∷ es) = edge env (on_event env cache e) es

keep-All :
    (env : Env) (o : Option Entry) (cache : List Entry)
    → OfferIsTrue env o
    → All (IsTrue env) cache
    → All (IsTrue env) (keep o cache)
keep-All env none cache t h = h
keep-All env (some e) cache t h = (t, h)

remove_at-All :
    (env : Env) (cache : List Entry) (i : ℕ)
    → All (IsTrue env) cache
    → All (IsTrue env) (remove_at cache i)
unfolding remove_at
remove_at-All env [] i h = tt
remove_at-All env (e ∷ es) zero h = h.1
remove_at-All env (e ∷ es) (suc i) h = (h.0, remove_at-All env es i h.1)

on_event-All :
    (env : Env) (e : Event) (cache : List Entry)
    → All (IsTrue env) cache
    → All (IsTrue env) (on_event env cache e)
unfolding on_event
on_event-All env (visit req lands) cache h =
    if_keep (All (IsTrue env)) lands
      (keep-All env (fetch env cache req).offered cache (fetch-offer env cache req) h) h
on_event-All env (evict i) cache h = remove_at-All env cache i h

edge-All :
    (env : Env) (es : List Event) (cache : List Entry)
    → All (IsTrue env) cache
    → All (IsTrue env) (edge env cache es)
unfolding edge
edge-All env [] cache h = h
edge-All env (e ∷ es) cache h = edge-All env es _ (on_event-All env e cache h)

-- At an edge whose cache began empty, after any requests, lost copies and evictions, every entry of
-- the cache is the whole 200 response for a file of the allowlist, with the object that the bucket
-- has for it, of 512 MiB at most.
pub edge-IsTrue : (env : Env) (es : List Event) → All (IsTrue env) (edge env [] es)
edge-IsTrue env es = edge-All env es [] tt

-- The cache is never seen but in the x-bashtion-cache header: whatever the edge has served, lost or
-- evicted, the response to a request is, that header aside, the one it would get with no cache.
pub fetch-edge :
    (env : Env) (es : List Event) (req : Request)
    → untagged (fetch env (edge env [] es) req).response ≡ untagged (fetch env [] req).response
fetch-edge env es req = fetch-untagged env (edge env [] es) req (edge-IsTrue env es)
