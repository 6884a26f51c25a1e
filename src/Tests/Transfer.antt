-- ===== src/Tests/Transfer.antt =====
-- The theorems on saving and loading, applied to short files and to a guest that answers.
use bashtion_wasm.Base.{
  ℕ, ◌+◌, ◌-◌, ◌≤◌, ◌≡◌, ◌≢◌, refl, ap, ltb, ◌&&◌, arith, Bool, true, false, List, [], ◌∷◌, ◌++◌,
  none, some, Str, str_eq, codes, length, get_or, All, ◌==◌, Bool-cases, inl, inr, if◌then◌else◌,
}
use bashtion_wasm.Whitespace.{trim}
use bashtion_wasm.Transfer.Checksum.{
  cksum, update_all, update_length, update, crc_table, crc_from, shift_bits, shift_bit,
}
use bashtion_wasm.Transfer.Checksum.Division.{posix_cksum}
use bashtion_wasm.Transfer.Checksum.Posix.{Byte, cksum_posix}
use bashtion_wasm.Transfer.Checksum.Detection.{cksum_window}
use bashtion_wasm.Transfer.Payload.{b64encode, payload, block, block_count}
use bashtion_wasm.Transfer.Payload.Joined.{joined, NotEnd, payloads}
use bashtion_wasm.Transfer.Payload.Fits.{lines_fit, payload_fits}
use bashtion_wasm.Transfer.Payload.Decoded.{Codec, decode-payloads}
use bashtion_wasm.Transfer.Shell.{ready, go, restore, spaced, line_text}
use bashtion_wasm.Transfer.Shell.Echo.{has_marker, line_text_unmarked}
use bashtion_wasm.Transfer.Console.{entered, Guest, Console, archive}
use bashtion_wasm.Transfer.Restore.{restored, home_only_behind, import_work}
use bashtion_wasm.Transfer.Save.{export_work, save, download}
use bashtion_wasm.Transfer.Terminal.{starts, typed, terminal}
use bashtion_wasm.Transfer.Settled.{Settled, transfers-Settled}
use bashtion_wasm.Transfer.Verified.{checked, import_work-checked}
use bashtion_wasm.Transfer.Flow.{flows, import_work-flows}
use bashtion_wasm.Transfer.Willing.{Willing, sent_text}
use bashtion_wasm.Transfer.Complete.{import_work-completes}
use bashtion_wasm.Transfer.Backed.{Kept, saves-Kept}

abbrev word_file : List ℕ
word_file = codes "bashtion"

-- What `cksum` prints for a file of these nine bytes.
cksum_digits : cksum (codes "123456789") ≡ 930766865
unfolding cksum update_all update_length update crc_table crc_from shift_bits shift_bit
cksum_digits = refl

unfoldable all_below : Str → Bool
all_below [] = true
all_below (c ∷ s) = ltb c 256 && all_below s

-- The characters of a text, as bytes.
in_range : (s : Str) → all_below s ≡ true → All Byte s
unfolding all_below
in_range [] h = tt
in_range (c ∷ s) h = (ground (arith), in_range s (ground arith))

cksum_posix_example : cksum word_file ≡ posix_cksum word_file
unfolding all_below
cksum_posix_example = cksum_posix word_file (in_range word_file refl) (omega arith)

work_is_not_home : codes "work" ≢ codes "home"
work_is_not_home e =
    let letters : b'w' ≡ b'h' = ap (λ (s : Str). get_or s 0 0) e in absurd (omega (arith, letters))

cksum_window_example :
    cksum (word_file ++ (codes "work" ++ codes "!"))
    ≢ cksum (word_file ++ (codes "home" ++ codes "!"))
unfolding all_below
cksum_window_example =
    cksum_window word_file (codes "work") (codes "home") (codes "!") (in_range word_file refl)
      (in_range (codes "work") refl) (in_range (codes "home") refl) (in_range (codes "!") refl) refl
      (omega arith) work_is_not_home

abbrev long_text : Str
long_text = codes "a line"

payload_fits_example :
    (lines_fit 512 (payload (block long_text 0)) ≡ true)
    × (length (payload (block long_text 0)) ≤ 2052)
payload_fits_example = payload_fits long_text 0

-- A codec of one character for each byte, in place of base64.
unfoldable encode_all : List ℕ → Str
encode_all [] = []
encode_all (b ∷ bytes) = (b + 32) ∷ encode_all bytes

unfoldable decode_all : Str → List ℕ
decode_all [] = []
decode_all (c ∷ s) = let rest = decode_all s in if c == b'\n' then rest else (c - 32) ∷ rest

not_end : (b : ℕ) → NotEnd (b + 32)
not_end b = ground arith

encode_all-NotEnd : (bytes : List ℕ) → All NotEnd (encode_all bytes)
unfolding encode_all
encode_all-NotEnd [] = tt
encode_all-NotEnd (b ∷ bytes) = (not_end b, encode_all-NotEnd bytes)

decode_all-joined : (s : Str) → decode_all s ≡ decode_all (joined s)
unfolding decode_all joined
decode_all-joined [] = refl
decode_all-joined (c ∷ s) = elim (Bool-cases (c == b'\n')) [
  | inl end ↦ rw end (decode_all-joined s)
  | inr other ↦ rw (other, other) (ap (λ (t : List ℕ). (c - 32) ∷ t) (decode_all-joined s))
]

back_again : (b : ℕ) → b + 32 - 32 ≡ b
back_again b = omega arith

decode-encode_all :
    (bytes : List ℕ) (s : Str) → decode_all (encode_all bytes ++ s) ≡ bytes ++ decode_all s
unfolding decode_all encode_all
decode-encode_all [] s = refl
decode-encode_all (b ∷ bytes) s =
    rw (not_end b, back_again b) (ap (λ (t : List ℕ). b ∷ t) (decode-encode_all bytes s))

codec : Codec encode_all decode_all
unfolding decode_all
codec = record {
  one_line = encode_all-NotEnd;
  line_ends = decode_all-joined;
  nothing = refl;
  chunk = decode-encode_all;
}

decode-payloads_example :
    decode_all
      (payloads (b64encode encode_all word_file) 0 (block_count (b64encode encode_all word_file)))
    ≡ word_file
decode-payloads_example = decode-payloads encode_all decode_all word_file codec

-- A guest that answers everything, at times before it is asked for the archive of another.
abbrev helpful : Guest
helpful = record {
  throws = λ t. false;
  prompt = λ t. true;
  marker = λ t. true;
  packed = λ t. some (archive (length word_file) (cksum word_file) (codes "x"));
  summed = λ t. some (length word_file, cksum word_file);
  unpacked = λ t. some (record { is_ok = true; said = codes "restored" });
  storage_throws = λ t. false;
  read_throws = λ t. false;
  btoa = encode_all;
  atob = λ s. some word_file;
}

abbrev open_console : Console
open_console = record {
  busy = false;
  engaged = false;
  clean = false;
  stored = none;
  acts = [];
  time = 0;
}

willing : Willing helpful word_file (codes "restored")
willing = record {
  takes = λ t. refl;
  prompts = λ t. refl;
  marks = λ t. refl;
  sums = λ t. refl;
  unpacks = λ t. refl;
}

-- A guest that stops in the middle of a block: its reader goes on waiting for the rest.
abbrev stalling : Guest
stalling = record helpful { marker = λ t. ltb t 7 }

transfers-Settled_example :
    Settled stalling (import_work stalling word_file open_console)
    × Settled stalling (export_work stalling open_console)
unfolding terminal
transfers-Settled_example =
    transfers-Settled stalling word_file open_console refl (record { on = refl; free = refl })

-- Without the Ctrl-C the line that turns the echo on is read as the archive's.
eaten : (terminal (entered (restore []) ∷ entered (go 3) ∷ entered ready ∷ [])).echoes ≡ false
unfolding terminal typed starts line_text spaced str_eq
eaten = refl

import_work-checked_example :
    checked
      (length word_file)
      (cksum word_file)
      (import_work helpful word_file open_console).console.acts
    ≡ true
unfolding checked
import_work-checked_example = import_work-checked helpful word_file open_console refl

import_work-flows_example : flows (import_work helpful word_file open_console).console.acts ≡ true
unfolding flows
import_work-flows_example = import_work-flows helpful word_file open_console refl

import_work-completes_example :
    ((import_work helpful word_file open_console).value
      ≡ some (restored (home_only_behind false (trim (codes "restored")))))
    × (sent_text (import_work helpful word_file open_console).console.acts
        ≡ []
          ++ payloads
              (b64encode encode_all word_file)
              0
              (block_count (b64encode encode_all word_file)))
unfolding sent_text
import_work-completes_example =
    import_work-completes helpful word_file (codes "restored") willing open_console refl

saves-Kept_example :
    Kept none (save helpful open_console).console
    × Kept none (download helpful open_console).console
saves-Kept_example = saves-Kept helpful open_console

line_text_unmarked_example : has_marker (line_text (go 2052)) ≡ false
line_text_unmarked_example = line_text_unmarked (go 2052) tt
