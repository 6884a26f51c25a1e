-- ===== src/Transfer/Restore.antt =====
-- web/serialfs.js: importWork, and `load`.
use bashtion_wasm.Base.{
  ℕ, zero, suc, ◌+◌, ◌*◌, ◌/◌, Bool, true, false, not, ◌&&◌, ◌||◌, List, [], ◌∷◌, Option, none,
  some, codes, length, drop, str_eq, take, within, ◌==◌, Str, if◌then◌else◌,
}
use bashtion_wasm.Steps.{give, ◌>>=◌, finally}
use bashtion_wasm.Whitespace.{trim}
use bashtion_wasm.Transfer.Checksum.{cksum}
use bashtion_wasm.Transfer.Payload.{b64encode, payload, block, block_count}
use bashtion_wasm.Transfer.Shell.{r_ready, r_go, r_blk, go, ready, check, unpack}
use bashtion_wasm.Transfer.Console.{
  Failure, no_prompt, never_answered, never_confirmed, never_finished, refused, stopped_at,
  stalled_at, damaged, preparing, restoring, checking, putting_back, progress, nothing_saved,
  work_restored, home_restored, failed, sent, reported, judged, Verdict, Guest, Console, Step, note,
  show, assign, console_of, paste, enter, wait, wait_marker, ensure_shell, recover,
}

-- What `importWork` resolves to.
pub data Imported : Type 0 where
  busy_already : Imported
  not_restored : Failure → Imported
  restored : Bool → Imported

abbrev pub load_files : Str
load_files = codes "/tmp/bw-load.b64 /tmp/bw-load.tgz /tmp/bw-load.err"

-- `Math.round(b * 100 / total)`.
abbrev pub percent : ℕ → ℕ → ℕ
percent b total = (200 * b + total) / (2 * total)

-- A block is announced, and sent once its reader runs. The steps resolve to why they failed, if they did.
unfoldable pub confirm_block : ℕ → ℕ → Bool → Step (Option Failure)
confirm_block b total true = show (progress (b + 1) total) >>= λ _. give none
confirm_block b total false = give (some (stalled_at (percent b total)))

unfoldable pub fill_block : Guest → Str → ℕ → ℕ → Bool → Step (Option Failure)
fill_block w text b total true =
    paste w (sent text) >>= λ _. wait_marker w r_blk >>= confirm_block b total
fill_block w text b total false = give (some (stopped_at (percent b total)))

unfoldable pub send_block : Guest → Str → ℕ → ℕ → Step (Option Failure)
send_block w text b total =
    enter w (go (length text)) >>= λ _. wait_marker w r_go >>= fill_block w text b total

-- `if (!...) return ...` behind a step.
abbrev pub if_well : Step (Option Failure) → Option Failure → Step (Option Failure)
if_well next none = next
if_well next (some why) = give (some why)

-- The loop: `rest` blocks, from block `b` on.
unfoldable pub send_blocks : Guest → Str → ℕ → ℕ → ℕ → Step (Option Failure)
send_blocks w b64 total b zero = give none
send_blocks w b64 total b (suc rest) =
    send_block w (payload (block b64 b)) b total >>= if_well (send_blocks w b64 total (b + 1) rest)

unfoldable pub send_if_ready : Guest → Str → Bool → Step (Option Failure)
send_if_ready w b64 true = send_blocks w b64 (block_count b64) 0 (block_count b64)
send_if_ready w b64 false = give (some never_answered)

unfoldable pub send_work : Guest → Str → Step (Option Failure)
send_work w b64 = enter w ready >>= λ _. wait_marker w r_ready >>= send_if_ready w b64

abbrev pub set_clean : Console → Console
set_clean c = record c { clean = true }

-- The guest's count and checksum against the page's.
unfoldable pub compare_sum : List ℕ → Option (ℕ × ℕ) → Step (Option Failure)
compare_sum bytes none = give (some never_confirmed)
compare_sum bytes (some (size, sum)) = note (reported size sum) >>= λ _.
    (if not (size == length bytes) || not (sum == cksum bytes)
      then (assign set_clean >>= λ _. give (some (damaged size (length bytes))))
      else give none)

unfoldable pub check_work : Guest → List ℕ → Step (Option Failure)
check_work w bytes =
    show checking >>= λ _. enter w check >>= λ _. wait w.summed >>= compare_sum bytes

abbrev pub word_char : ℕ → Bool
word_char c = within b'a' b'z' c || within b'A' b'Z' c || within b'0' b'9' c || c == b'_'

abbrev pub head_is_word : Str → Bool
head_is_word [] = false
head_is_word (c ∷ s) = word_char c

abbrev pub home_phrase : Str
home_phrase = codes "restored home only"

-- `/\brestored home only\b/.test(s)`, with what kind of character stands before.
unfoldable pub home_only_behind : Bool → Str → Bool
home_only_behind before [] = false
home_only_behind before (c ∷ s) =
    let later = home_only_behind (word_char c) s in
    (not before
      && (str_eq (take (length home_phrase) (c ∷ s)) home_phrase
          && not (head_is_word (drop (length home_phrase) (c ∷ s)))))
    || later

-- `verdict || '...'` is left to whom the reason is shown: no reason is the empty text.
unfoldable pub read_verdict : Option Verdict → Step Imported
read_verdict none = give (not_restored never_finished)
read_verdict (some v) = note (judged v.is_ok) >>= λ _.
    (if v.is_ok
      then (assign set_clean >>= λ _. give (restored (home_only_behind false (trim v.said))))
      else give (not_restored (refused (trim v.said))))

unfoldable pub unpack_work : Guest → Option Failure → Step Imported
unpack_work w (some why) = give (not_restored why)
unpack_work w none =
    show putting_back >>= λ _. enter w unpack >>= λ _. wait w.unpacked >>= read_verdict

abbrev pub set_engaged : Console → Console
set_engaged c = record c { engaged = true }

unfoldable pub import_engaged : Guest → List ℕ → Step Imported
import_engaged w bytes = show restoring >>= λ _.
    send_work w (b64encode w.btoa bytes) >>= if_well (check_work w bytes) >>= unpack_work w

unfoldable pub import_at_prompt : Guest → List ℕ → Bool → Step Imported
import_at_prompt w bytes true = assign set_engaged >>= λ _. import_engaged w bytes
import_at_prompt w bytes false = give (not_restored no_prompt)

-- The `try` block.
unfoldable pub import_body : Guest → List ℕ → Step Imported
import_body w bytes = show preparing >>= λ _. ensure_shell w >>= import_at_prompt w bytes

abbrev pub release : Console → Console
release c = record c { busy = false }

unfoldable pub recover_if : Guest → Str → Console → Step Unit
recover_if w files c = if c.engaged then recover w c.clean files else give tt

-- The `finally` block, of this and of exportWork.
unfoldable pub clean_up : Guest → Str → Step Unit
clean_up w files = finally (console_of >>= recover_if w files) (assign release)

abbrev pub begin : Console → Console
begin c = record c { busy = true; engaged = false; clean = false }

unfoldable pub import_held : Guest → List ℕ → Step Imported
import_held w bytes = finally (import_body w bytes) (clean_up w load_files)

unfoldable pub import_work : Guest → List ℕ → Step Imported
import_work w bytes c =
    if c.busy then give busy_already c else (assign begin >>= λ _. import_held w bytes) c

-- What `load` resolves to.
pub data Loaded : Type 0 where
  not_loaded loaded loaded_home : Loaded

unfoldable pub report_import : Imported → Step Loaded
report_import busy_already = give not_loaded
report_import (not_restored why) = show (failed why) >>= λ _. give not_loaded
report_import (restored true) = show home_restored >>= λ _. give loaded_home
report_import (restored false) = show work_restored >>= λ _. give loaded

unfoldable pub load_bytes : Guest → Option (List ℕ) → Step Loaded
load_bytes w none = show nothing_saved >>= λ _. give not_loaded
load_bytes w (some []) = show nothing_saved >>= λ _. give not_loaded
load_bytes w (some (b ∷ bytes)) = import_work w (b ∷ bytes) >>= report_import

-- opfsRead: an exception of the storage is caught, and gives null.
unfoldable pub opfs_read : Guest → Step (Option (List ℕ))
opfs_read w c = record {
  console = record c { time = c.time + 1 };
  value = some (if w.read_throws c.time then none else c.stored);
}

-- `file ? ... : await opfsRead()`.
unfoldable pub bytes_of : Guest → Option (List ℕ) → Step (Option (List ℕ))
bytes_of w none = opfs_read w
bytes_of w (some bytes) = give (some bytes)

unfoldable pub load : Guest → Option (List ℕ) → Step Loaded
load w file = bytes_of w file >>= load_bytes w
