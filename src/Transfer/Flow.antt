-- ===== src/Transfer/Flow.antt =====
-- The flow control of importWork: the guest's terminal drops what comes while nothing reads it.
use bashtion_wasm.Base.{
  ℕ, zero, suc, ◌+◌, ◌≤◌, ◌≡◌, refl, arith, Bool, true, false, ◌&&◌, List, [], ◌∷◌, Option, none,
  some, Bool-cases, inl, inr, Str, length, ◌==◌, leb,
}
use bashtion_wasm.Steps.{give}
use bashtion_wasm.Steps.Triples.{Triple, bind-Triple, post-Triple}
use bashtion_wasm.Transfer.Payload.{payload, block, block_count}
use bashtion_wasm.Transfer.Payload.Joined.{length-payload}
use bashtion_wasm.Transfer.Shell.{
  Marker, r_ready, r_go, r_blk, go, check, unpack, probe, interrupt, clear, pack, ready, restore,
}
use bashtion_wasm.Transfer.Console.{
  Failure, progress, shown, reported, judged, sent, seen, handed_out, Act, entered, Guest, Console,
  Step, show, paste, enter, wait_marker,
}
use bashtion_wasm.Transfer.Restore.{
  confirm_block, fill_block, send_block, if_well, send_blocks, send_if_ready, send_work,
  import_engaged, import_work,
}
use bashtion_wasm.Transfer.Quiet.{
  Threw, Calm, Marked, Calm-Marked, plain, Quiet, paste-Triple, paste-Quiet, Traced,
}
use bashtion_wasm.Transfer.Quiet.Restore.{import_engaged-Quiet, import_work-keeps}

-- A reader of `n` bytes was started, `n` being what the terminal's buffer holds at most; and it has said so.
unfoldable pub opened : ℕ → List Act → Bool
opened n (entered (go m) ∷ past) = (m == n) && leb m 2052
opened n past = false

unfoldable pub granted : ℕ → List Act → Bool
granted n (seen r_go ∷ past) = opened n past
granted n past = false

unfoldable pub acknowledged : List Act → Bool
acknowledged (seen r_blk ∷ past) = true
acknowledged past = false

-- No reader runs: none was started yet, or the last one has said that it is done.
unfoldable pub at_rest : List Act → Bool
at_rest (seen r_ready ∷ past) = true
at_rest (shown (progress b total) ∷ past) = acknowledged past
at_rest past = false

-- Each block is sent to a reader of its size, and each reader started when none runs.
unfoldable pub flows : List Act → Bool
flows [] = true
flows (sent text ∷ past) = granted (length text) past && flows past
flows (entered (go n) ∷ past) = at_rest past && flows past
flows (a ∷ past) = flows past

abbrev Flows : Console → Type 0
Flows c = flows c.acts ≡ true

plain-flows :
    (a : Act) (past : List Act) → plain a ≡ true → flows past ≡ true → flows (a ∷ past) ≡ true
unfolding plain flows
plain-flows (sent text) past h k = absurd (cc)
plain-flows (seen m) past h k = k
plain-flows (reported n s) past h k = k
plain-flows (judged ok) past h k = k
plain-flows (shown o) past h k = k
plain-flows (handed_out bytes) past h k = k
plain-flows (entered probe) past h k = k
plain-flows (entered interrupt) past h k = k
plain-flows (entered clear) past h k = k
plain-flows (entered pack) past h k = k
plain-flows (entered ready) past h k = k
plain-flows (entered check) past h k = k
plain-flows (entered unpack) past h k = k
plain-flows (entered (go n)) past h k = absurd (cc)
plain-flows (entered (restore files)) past h k = k

Flows-Calm : Calm Flows
Flows-Calm = record { acted = λ c a h i. plain-flows a c.acts h i; timed = λ c i. i }

Flows-Marked : Marked Flows
Flows-Marked = Calm-Marked Flows-Calm (λ c i. i)

abbrev Both : (List Act → Bool) → Console → Type 0
Both test c = (test c.acts ≡ true) × Flows c

abbrev any_past : List Act → Bool
any_past past = true

-- Behind a wait: what the marker tells, or that it did not come.
abbrev Told : (List Act → Bool) → Bool → Console → Type 0
Told test true = Both test
Told test false = Flows

abbrev Went : Option Failure → Console → Type 0
Went none = Both at_rest
Went (some why) = Flows

both_true : {a b : Bool} → a ≡ true → b ≡ true → a && b ≡ true
both_true {a} {b} p q = rw (p, q) refl

module _ (w : Guest) where
  abbrev Thrown : Console → Type 0
  Thrown c = Flows c × Threw w

  wait_marker-Told :
      (before after : List Act → Bool) (m : Marker)
      → ((past : List Act) → before past ≡ true → after (seen m ∷ past) ≡ true)
      → Triple (Both before) (Told after) Thrown (wait_marker w m)
  unfolding wait_marker flows
  wait_marker-Told before after m h = record {
    ends = λ c i. elim (Bool-cases (w.marker c.time)) [
      | inl found ↦ rw found (h c.acts i.0, i.1)
      | inr gave_up ↦ rw gave_up i.1
    ];
  }

  start-Both :
      (n : ℕ) → n ≤ 2052 → Triple (Both at_rest) (λ t. Both (opened n)) Thrown (enter w (go n))
  unfolding flows opened
  start-Both n h =
      paste-Triple w (Both at_rest) (Both (opened n)) Thrown (entered (go n))
        (λ c i. (ground arith, both_true i.0 i.1)) (λ c i t. (i.1, t))

  send-Flows :
      (text : Str)
      → Triple (Both (granted (length text))) (λ t. Both any_past) Thrown (paste w (sent text))
  unfolding flows
  send-Flows text =
      paste-Triple w (Both (granted (length text))) (Both any_past) Thrown (sent text)
        (λ c i. (refl, both_true i.0 i.1)) (λ c i t. (i.1, t))

  go-Told : (n : ℕ) → Triple (Both (opened n)) (Told (granted n)) Thrown (wait_marker w r_go)
  unfolding granted
  go-Told n = wait_marker-Told (opened n) (granted n) r_go (λ past h. h)

  done-Told : Triple (Both any_past) (Told acknowledged) Thrown (wait_marker w r_blk)
  unfolding acknowledged
  done-Told = wait_marker-Told any_past acknowledged r_blk (λ past h. refl)

  ready-Told : Triple (Both any_past) (Told at_rest) Thrown (wait_marker w r_ready)
  unfolding at_rest
  ready-Told = wait_marker-Told any_past at_rest r_ready (λ past h. refl)

  progress-Both :
      (b total : ℕ)
      → Triple (Both acknowledged) (λ t. Both at_rest) Thrown (show (progress (b + 1) total))
  unfolding at_rest flows
  progress-Both b total = record { ends = λ c i. i }

  all_sent : Triple (Both at_rest) Went Thrown (give none)
  all_sent = record { ends = λ c i. i }

  failed_with : (why : Failure) → Triple Flows Went Thrown (give (some why))
  failed_with why = record { ends = λ c i. i }

  confirm_block-Went :
      (b total : ℕ) (ok : Bool)
      → Triple (Told acknowledged ok) Went Thrown (confirm_block b total ok)
  unfolding confirm_block
  confirm_block-Went b total true = bind-Triple (progress-Both b total) (λ _. all_sent)
  confirm_block-Went b total false = failed_with _

  fill_block-Went :
      (text : Str) (b total : ℕ) (ok : Bool)
      → Triple (Told (granted (length text)) ok) Went Thrown (fill_block w text b total ok)
  unfolding fill_block
  fill_block-Went text b total true =
      bind-Triple (send-Flows text) (λ _. bind-Triple (done-Told) (confirm_block-Went b total))
  fill_block-Went text b total false = failed_with _

  send_block-Went :
      (text : Str) (b total : ℕ)
      → length text ≤ 2052
      → Triple (Both at_rest) Went Thrown (send_block w text b total)
  unfolding send_block
  send_block-Went text b total h =
      bind-Triple (start-Both (length text) h)
        (λ _. bind-Triple (go-Told (length text)) (fill_block-Went text b total))

  next-Went :
      {next : Step (Option Failure)}
      → Triple (Both at_rest) Went Thrown next
      → (why : Option Failure) → Triple (Went why) Went Thrown (if_well next why)
  next-Went h none = h
  next-Went h (some why) = failed_with why

  send_blocks-Went :
      (b64 : Str) (total b rest : ℕ)
      → Triple (Both at_rest) Went Thrown (send_blocks w b64 total b rest)
  unfolding send_blocks
  send_blocks-Went b64 total b zero = all_sent
  send_blocks-Went b64 total b (suc rest) =
      bind-Triple (send_block-Went (payload (block b64 b)) b total (length-payload b64 b))
        (next-Went (send_blocks-Went b64 total (b + 1) rest))

  send_if_ready-Went :
      (b64 : Str) (ok : Bool) → Triple (Told at_rest ok) Went Thrown (send_if_ready w b64 ok)
  unfolding send_if_ready
  send_if_ready-Went b64 true = send_blocks-Went b64 (block_count b64) 0 (block_count b64)
  send_if_ready-Went b64 false = failed_with _

  Went-Flows : (why : Option Failure) (c : Console) → Went why c → Flows c
  Went-Flows none c i = i.1
  Went-Flows (some why) c i = i

  start_work : Triple Flows (λ t. Both any_past) Thrown (enter w ready)
  unfolding flows
  start_work =
      paste-Triple w Flows (Both any_past) Thrown (entered ready) (λ c i. (refl, i))
        (λ c i t. (i, t))

  send_work-Flows : (b64 : Str) → Quiet w Flows (send_work w b64)
  unfolding send_work
  send_work-Flows b64 = bind-Triple start_work (λ _.
      bind-Triple ready-Told
        (λ ok. post-Triple Went (λ why. Flows) Went-Flows (send_if_ready-Went b64 ok)))

  engaged_Flows : (bytes : List ℕ) → Quiet w Flows (import_engaged w bytes)
  unfolding flows
  engaged_Flows =
      import_engaged-Quiet w Flows Flows-Calm Flows-Marked
        (paste-Quiet w Flows (entered unpack) (λ c i. i) (λ c i. i)) send_work-Flows

  Flows-Traced : Traced Flows
  Flows-Traced = record {
    calm = Flows-Calm;
    marks = Flows-Marked;
    begun = λ c i. i;
    taken = λ c i. i;
    released = λ c i. i;
  }

-- Whatever the guest answers and whichever paste throws, importWork sends each block, of at most 2,052
-- characters, right behind the word that a reader of its size runs, and starts each reader when none runs.
pub import_work-flows :
    (w : Guest) (bytes : List ℕ) (c : Console)
    → flows c.acts ≡ true
    → flows (import_work w bytes c).console.acts ≡ true
import_work-flows w bytes c i =
    import_work-keeps w bytes Flows (Flows-Traced w) (engaged_Flows w bytes) c i
