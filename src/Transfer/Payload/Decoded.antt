-- ===== src/Transfer/Payload/Decoded.antt =====
-- What the guest's decoder makes of what it is sent.
use bashtion_wasm.Base.{
  ℕ, zero, suc, ◌+◌, ◌≤◌, ◌≡◌, sym, ap, ◌∙◌, arith, List, [], ◌++◌, length, drop, Bool-cases, inl,
  inr, ltb, ltb→ge, Str, All, All-append,
}
use bashtion_wasm.Transfer.Payload.{chunk_limit, slice, encode_from, b64encode, block_count}
use bashtion_wasm.Transfer.Payload.Joined.{
  joined, NotEnd, payloads, joined-blocks, slice-append, drop_all,
}

-- `btoa` and `base64 -d` as their documentation has them: the encoding has no line ends, the decoder
-- leaves them out, and it takes up one encoding behind another.
pub record Codec (btoa : List ℕ → Str) (decode : Str → List ℕ) : Type 0 where
  pub one_line : (bytes : List ℕ) → All NotEnd (btoa bytes)
  pub line_ends : (s : Str) → decode s ≡ decode (joined s)
  pub nothing : decode [] ≡ []
  pub chunk : (bytes : List ℕ) (s : Str) → decode (btoa bytes ++ s) ≡ bytes ++ decode s

module _ (btoa : List ℕ → Str) (decode : Str → List ℕ) (k : Codec btoa decode) where
  one_line-encode_from : (n : ℕ) (bytes : List ℕ) (i : ℕ) → All NotEnd (encode_from btoa n bytes i)
  unfolding encode_from
  one_line-encode_from zero bytes i = tt
  one_line-encode_from (suc n) bytes i = elim (Bool-cases (ltb i (length bytes))) [
    | inl inside ↦ rw inside (
        All-append NotEnd (btoa (slice bytes i (i + chunk_limit)))
          (encode_from btoa n bytes (i + chunk_limit))
          (k.one_line (slice bytes i (i + chunk_limit)))
          (one_line-encode_from n bytes (i + chunk_limit)))
    | inr past ↦ rw past tt
  ]

  decode-encode_from :
      (n : ℕ) (bytes : List ℕ) (i : ℕ)
      → length bytes ≤ i + n
      → decode (encode_from btoa n bytes i) ≡ drop i bytes
  unfolding encode_from
  decode-encode_from zero bytes i h = k.nothing ∙ sym (drop_all i bytes (omega arith))
  decode-encode_from (suc n) bytes i h = elim (Bool-cases (ltb i (length bytes))) [
    | inl inside ↦ rw inside (
        k.chunk (slice bytes i (i + chunk_limit)) (encode_from btoa n bytes (i + chunk_limit))
        ∙ ap (λ (t : List ℕ). slice bytes i (i + chunk_limit) ++ t)
            (decode-encode_from n bytes (i + chunk_limit) (omega arith))
        ∙ slice-append bytes i chunk_limit)
    | inr past ↦ rw past (k.nothing ∙ sym (drop_all i bytes (ltb→ge i (length bytes) past)))
  ]

-- Of all that is sent for a file, the guest's decoder makes the file.
pub decode-payloads :
    (btoa : List ℕ → Str) (decode : Str → List ℕ) (bytes : List ℕ)
    → Codec btoa decode
    → decode (payloads (b64encode btoa bytes) 0 (block_count (b64encode btoa bytes))) ≡ bytes
unfolding b64encode
decode-payloads btoa decode bytes k =
    let b64 = b64encode btoa bytes in
    k.line_ends (payloads b64 0 (block_count b64))
    ∙ ap decode (joined-blocks b64 (one_line-encode_from btoa decode k (length bytes) bytes 0))
    ∙ decode-encode_from btoa decode k (length bytes) bytes 0 (omega arith)
