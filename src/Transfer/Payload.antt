-- ===== src/Transfer/Payload.antt =====
-- web/serialfs.js: the text that importWork sends, in blocks of lines. `btoa` is the browser's.
pub mod Joined
pub mod Fits
pub mod Decoded
use bashtion_wasm.Base.{
  ℕ, zero, suc, ◌+◌, ◌-◌, ◌*◌, ◌/◌, List, [], ◌∷◌, ◌++◌, length, take, drop, ltb, if◌then◌else◌,
  Str,
}

abbrev pub line_limit : ℕ
line_limit = 512

abbrev pub block_limit : ℕ
block_limit = 2048

abbrev pub chunk_limit : ℕ
chunk_limit = 0x8000

-- `s.slice(i, j)`, and `bytes.subarray(i, j)`.
abbrev pub slice : {A : Type 0} → List A → ℕ → ℕ → List A
slice s i j = take (j - i) (drop i s)

-- The loop of b64encode, from `i` on; `rounds` bounds what is left of the bytes.
unfoldable pub encode_from : (List ℕ → Str) → ℕ → List ℕ → ℕ → Str
encode_from btoa zero bytes i = []
encode_from btoa (suc rounds) bytes i =
    let rest = encode_from btoa rounds bytes (i + chunk_limit) in
    if ltb i (length bytes) then btoa (slice bytes i (i + chunk_limit)) ++ rest else []

-- b64encode.
unfoldable pub b64encode : (List ℕ → Str) → List ℕ → Str
b64encode btoa bytes = encode_from btoa (length bytes) bytes 0

-- The loop over the lines of a block, from `i` on.
unfoldable pub lines_from : ℕ → Str → ℕ → Str
lines_from zero s i = []
lines_from (suc rounds) s i =
    let rest = lines_from rounds s (i + line_limit) in
    if ltb i (length s) then slice s i (i + line_limit) ++ b'\n' ∷ rest else []

unfoldable pub payload : Str → Str
payload s = lines_from (length s) s 0

-- `Math.ceil(b64.length / BLOCK)`.
abbrev pub block_count : Str → ℕ
block_count b64 = (length b64 + (block_limit - 1)) / block_limit

abbrev pub block : Str → ℕ → Str
block b64 b = slice b64 (b * block_limit) ((b + 1) * block_limit)
