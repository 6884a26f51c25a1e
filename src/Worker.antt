-- ===== src/Worker.antt =====
-- deploy/worker.js: the requests that are served from the private bucket, and the edge cache.
pub mod Number
pub mod Http
pub mod Range
pub mod Cache
pub mod Requests
pub mod Decimal
pub mod Reads
pub mod Asks
use bashtion_wasm.Base.{
  ℕ, ◌+◌, ◌-◌, ◌*◌, Bool, true, false, List, [], ◌∷◌, Option, none, some, codes, leb, not, ◌||◌,
  if◌then◌else◌, Str, str_eq,
}
use bashtion_wasm.Worker.Number.{ℤ, pos, negsuc, minus, ◌+ℤ◌}
use bashtion_wasm.Worker.Http.{
  Value, words, decimal, content_range, Header, Headers, set_header, Response, R2Range, Span,
  Object, Request, Env,
}
use bashtion_wasm.Worker.Range.{parse_range}

-- One file of the allowlist.
pub record Spec : Type 0 where
  pub path : Str
  pub key : Str
  pub kind : Str

-- R2_FILES.
abbrev pub r2_files : List Spec
r2_files =
    record {
      path = codes "/qemu-system-x86_64.d8537ec6ccf0354a.wasm";
      key = codes "qemu-system-x86_64.d8537ec6ccf0354a.wasm";
      kind = codes "application/wasm";
    }
    ∷ record {
      path = codes "/load-rootfsB.v4.data";
      key = codes "load-rootfsB.v4.data";
      kind = codes "application/octet-stream";
    }
    ∷ record {
      path = codes "/load-state.v4.data";
      key = codes "load-state.v4.data";
      kind = codes "application/octet-stream";
    }
    ∷ []

-- `R2_FILES[path]`. A pathname starts with `/`, so it names no inherited property.
unfoldable pub find_spec : List Spec → Str → Option Spec
find_spec [] path = none
find_spec (f ∷ fs) path =
    let rest = find_spec fs path in if str_eq f.path path then some f else rest

unfoldable pub spec_for : Str → Option Spec
spec_for path = find_spec r2_files path

abbrev pub security_headers : Headers
security_headers =
    record { name = codes "x-content-type-options"; value = words (codes "nosniff") }
    ∷ record { name = codes "cross-origin-resource-policy"; value = words (codes "same-origin") }
    ∷ record { name = codes "referrer-policy"; value = words (codes "no-referrer") }
    ∷ record {
      name = codes "cache-control";
      value = words (codes "public, max-age=31536000, immutable");
    }
    ∷ []

abbrev pub cache_max_bytes : ℕ
cache_max_bytes = 512 * 1024 * 1024

-- An entry of the edge cache, by URL.
pub record Entry : Type 0 where
  pub url : Str
  pub response : Response

-- `cache.match`.
unfoldable pub match_entry : List Entry → Str → Option Response
match_entry [] url = none
match_entry (e ∷ es) url =
    let rest = match_entry es url in if str_eq e.url url then some e.response else rest

-- What handling a request gives: the response, and the copy that is offered to the edge cache.
pub record Outcome : Type 0 where
  pub response : Response
  pub offered : Option Entry

abbrev pub only : Response → Outcome
only r = record { response = r; offered = none }

abbrev pub not_allowed : Response
not_allowed = record {
  status = 405;
  headers = record { name = codes "allow"; value = words (codes "GET, HEAD") } ∷ [];
  body = some (codes "Method Not Allowed");
}

abbrev pub not_found : Response
not_found = record { status = 404; headers = []; body = some (codes "Not Found") }

abbrev pub unsatisfiable : Response
unsatisfiable = record { status = 416; headers = []; body = some (codes "Range Not Satisfiable") }

abbrev pub is_get : Request → Bool
is_get req = str_eq req.method (codes "GET")

abbrev pub is_head : Request → Bool
is_head req = str_eq req.method (codes "HEAD")

-- `rangeHeader`, where an empty one is falsy.
abbrev pub range_header : Request → Option Str
range_header req = elim req.range [
  | none ↦ none
  | some t ↦ elim t [ [] ↦ none | c ∷ cs ↦ some (c ∷ cs) ]
]

abbrev pub tag : Str → Response → Response
tag v r = record r { headers = set_header (codes "x-bashtion-cache") (words v) r.headers }

-- The headers that both ways of serving begin with.
unfoldable pub base_headers : Spec → Object → Headers
base_headers spec object = set_header (codes "accept-ranges") (words (codes "bytes")) (
    set_header (codes "content-type") (words spec.kind)
      (object.write_http_metadata security_headers))

unfoldable pub full_response : Spec → Object → Response
full_response spec object = record {
  status = 200;
  headers = set_header (codes "content-length") (decimal object.size) (base_headers spec object);
  body = object.body;
}

-- The object behind a full GET: served, and offered to the cache where it is small enough.
unfoldable pub serve_whole : Str → Spec → Object → Outcome
serve_whole url spec object =
    let response = full_response spec object in
    if leb object.size cache_max_bytes
    then record {
      response = tag (codes "MISS") response;
      offered = some (record { url = url; response = response });
    }
    else only (tag (codes "UNCACHED") response)

-- A full GET that the cache does not answer.
unfoldable pub full_get : Env → Str → Spec → Outcome
full_get env url spec = elim (env.get spec.key) [
  | none ↦ only not_found
  | some object ↦ serve_whole url spec object
]

-- `a ?? b`.
abbrev pub or_else : Option ℕ → ℕ → ℕ
or_else none b = b
or_else (some a) b = a

-- The last lines of serveFromR2: a body, whole or in part.
unfoldable pub serve_body : Option R2Range → Object → Headers → Response
serve_body none object headers = record { status = 200; headers = headers; body = object.body }
serve_body (some range) object headers = elim object.range [
  | none ↦ record { status = 200; headers = headers; body = object.body }
  | some span ↦
      let offset = or_else span.offset 0 in
      let length : ℤ = elim span.length [ none ↦ minus object.size offset | some n ↦ pos n ] in
      record {
        status = 206;
        headers =
            set_header (codes "content-range")
              (content_range offset (pos offset +ℤ length +ℤ negsuc 0) object.size) headers;
        body = object.body;
      }
]

unfoldable pub serve_object : Request → Spec → Option R2Range → Object → Response
serve_object req spec range object =
    let headers =
      set_header (codes "x-bashtion-cache") (words (codes "BYPASS")) (base_headers spec object) in
    elim object.body [
      | none ↦ record { status = 304; headers = headers; body = none }
      | some _ ↦
          if is_head req
          then record {
            status = 200;
            headers = set_header (codes "content-length") (decimal object.size) headers;
            body = none;
          }
          else serve_body range object headers
    ]

unfoldable pub read_r2 : Env → Request → Spec → Option R2Range → Response
read_r2 env req spec range = elim (env.get_with spec.key range req.headers) [
  | none ↦ not_found
  | some object ↦ serve_object req spec range object
]

unfoldable pub by_range : Env → Request → Spec → Option R2Range → Response
by_range env req spec none = unsatisfiable
by_range env req spec (some range) = read_r2 env req spec (some range)

unfoldable pub by_header : Env → Request → Spec → Option Str → Response
by_header env req spec none = read_r2 env req spec none
by_header env req spec (some header) = by_range env req spec (parse_range header)

unfoldable pub serve_from_r2 : Env → Request → Spec → Response
serve_from_r2 env req spec = by_header env req spec (range_header req)

abbrev pub is_some : Option Str → Bool
is_some none = false
is_some (some _) = true

-- A full GET, with what the cache has for it.
unfoldable pub on_match : Env → Str → Spec → Option Response → Outcome
on_match env url spec none = full_get env url spec
on_match env url spec (some hit) = only (tag (codes "HIT") hit)

-- A request for a file of the allowlist.
unfoldable pub serve : Env → List Entry → Request → Spec → Outcome
serve env cache req spec =
    if not (is_get req || is_head req)
    then only not_allowed
    else if is_some (range_header req) || is_head req
    then only (serve_from_r2 env req spec)
    else on_match env req.url spec (match_entry cache req.url)

unfoldable pub fetch : Env → List Entry → Request → Outcome
fetch env cache req = elim (spec_for (env.pathname req.url)) [
  | none ↦ only (env.assets req)
  | some spec ↦ serve env cache req spec
]
