-- ===== src/Transfer/Quiet/Restore.antt =====
-- The steps of importWork.
use bashtion_wasm.Base.{
  ℕ, zero, suc, ◌+◌, refl, Bool, true, false, not, ◌||◌, List, ◌∷◌, Option, none, some, if_keep,
  length, Str, ◌==◌,
}
use bashtion_wasm.Steps.{give}
use bashtion_wasm.Steps.Triples.{Triple, bind-Triple}
use bashtion_wasm.Transfer.Checksum.{cksum}
use bashtion_wasm.Transfer.Payload.{b64encode, payload, block, block_count}
use bashtion_wasm.Transfer.Shell.{r_ready, r_go, r_blk, ready, check, unpack, go}
use bashtion_wasm.Transfer.Console.{
  Failure, progress, checking, putting_back, restoring, preparing, shown, reported, judged, sent,
  entered, Verdict, Guest, Console, Outcome, Step, enter,
}
use bashtion_wasm.Transfer.Restore.{
  confirm_block, fill_block, send_block, if_well, send_blocks, send_if_ready, send_work,
  compare_sum, check_work, read_verdict, unpack_work, import_engaged, Imported, busy_already,
  import_at_prompt, import_body, import_held, import_work, begin, load_files,
}
use bashtion_wasm.Transfer.Quiet.{
  Calm, Marked, Told, Threw, plain, tells, Quiet, paste-Quiet, note-Quiet, give-Quiet, tell-Quiet,
  give-Told, mark-Told, enter-Quiet, wait-Quiet, wait_marker-Quiet, bind-Quiet, then-Quiet,
  ensure_shell-Quiet, Quiet-keeps, clean_up-keeps, Traced, take-Quiet,
}

module _ (w : Guest) (I : Console → Type 0) (calm : Calm I)
    (goes : (c : Console) (n : ℕ) → I c → I (record c { acts = entered (go n) ∷ c.acts }))
    (sends : (c : Console) (text : Str) → I c → I (record c { acts = sent text ∷ c.acts })) where
  confirm_block-Quiet : (b total : ℕ) (ok : Bool) → Quiet w I (confirm_block b total ok)
  unfolding confirm_block plain
  confirm_block-Quiet b total true =
      then-Quiet w I calm (note-Quiet w I calm (shown (progress (b + 1) total)) refl)
        (give-Quiet w I calm none)
  confirm_block-Quiet b total false = give-Quiet w I calm _

  fill_block-Quiet :
      (text : Str) (b total : ℕ) (ok : Bool) → Quiet w I (fill_block w text b total ok)
  unfolding fill_block plain
  fill_block-Quiet text b total true =
      then-Quiet w I calm (paste-Quiet w I (sent text) (λ c. sends c text) calm.timed)
        (bind-Quiet w I calm (wait_marker-Quiet w I calm r_blk) (confirm_block-Quiet b total))
  fill_block-Quiet text b total false = give-Quiet w I calm _

  pub send_block-Quiet : (text : Str) (b total : ℕ) → Quiet w I (send_block w text b total)
  unfolding send_block plain
  send_block-Quiet text b total =
      then-Quiet w I calm
        (paste-Quiet w I (entered (go (length text))) (λ c. goes c (length text)) calm.timed)
        (bind-Quiet w I calm (wait_marker-Quiet w I calm r_go) (fill_block-Quiet text b total))

module _ (w : Guest) (I : Console → Type 0) (calm : Calm I) where
  pub if_well-Quiet :
      {next : Step (Option Failure)}
      → Quiet w I next
      → (why : Option Failure) → Quiet w I (if_well next why)
  if_well-Quiet h none = h
  if_well-Quiet h (some why) = give-Quiet w I calm _

module _ (w : Guest) (I : Console → Type 0) (calm : Calm I) (marks : Marked I) where
  compare_sum-Quiet : (bytes : List ℕ) (sum : Option (ℕ × ℕ)) → Quiet w I (compare_sum bytes sum)
  unfolding compare_sum plain tells
  compare_sum-Quiet bytes none = give-Quiet w I calm _
  compare_sum-Quiet bytes (some (size, sum)) =
      tell-Quiet w I calm (reported size sum) marks refl refl (
        if_keep (Triple (Told I) (λ b. I) (λ c. I c × Threw w))
          (not (size == length bytes) || not (sum == cksum bytes)) (mark-Told w I calm _)
          (give-Told w I calm none))

  pub check_work-Quiet : (bytes : List ℕ) → Quiet w I (check_work w bytes)
  unfolding check_work plain
  check_work-Quiet bytes = then-Quiet w I calm (note-Quiet w I calm (shown checking) refl) (
      then-Quiet w I calm (enter-Quiet w I calm check refl)
        (bind-Quiet w I calm (wait-Quiet w I calm w.summed) (compare_sum-Quiet bytes)))

  pub read_verdict-Quiet : (v : Option Verdict) → Quiet w I (read_verdict v)
  unfolding read_verdict plain tells
  read_verdict-Quiet none = give-Quiet w I calm _
  read_verdict-Quiet (some v) = tell-Quiet w I calm (judged v.is_ok) marks refl refl (
      if_keep (Triple (Told I) (λ b. I) (λ c. I c × Threw w)) v.is_ok (mark-Told w I calm _)
        (give-Told w I calm _))

module _ (w : Guest) (I : Console → Type 0) (calm : Calm I) (marks : Marked I)
    (unpacks : Quiet w I (enter w unpack)) where
  pub unpack_work-Quiet : (why : Option Failure) → Quiet w I (unpack_work w why)
  unfolding unpack_work plain
  unpack_work-Quiet (some why) = give-Quiet w I calm _
  unpack_work-Quiet none = then-Quiet w I calm (note-Quiet w I calm (shown putting_back) refl) (
      then-Quiet w I calm unpacks
        (bind-Quiet w I calm (wait-Quiet w I calm w.unpacked) (read_verdict-Quiet w I calm marks)))

  pub import_engaged-Quiet :
      ((b64 : Str) → Quiet w I (send_work w b64))
      → (bytes : List ℕ) → Quiet w I (import_engaged w bytes)
  unfolding import_engaged plain
  import_engaged-Quiet sends bytes =
      then-Quiet w I calm (note-Quiet w I calm (shown restoring) refl) (
        bind-Quiet w I calm
          (bind-Quiet w I calm (sends (b64encode w.btoa bytes))
            (if_well-Quiet w I calm (check_work-Quiet w I calm marks bytes)))
          unpack_work-Quiet)

module _ (w : Guest) (I : Console → Type 0) (calm : Calm I)
    (blocks : (text : Str) (b total : ℕ) → Quiet w I (send_block w text b total)) where
  send_blocks-Quiet : (b64 : Str) (total b rest : ℕ) → Quiet w I (send_blocks w b64 total b rest)
  unfolding send_blocks plain
  send_blocks-Quiet b64 total b zero = give-Quiet w I calm none
  send_blocks-Quiet b64 total b (suc rest) =
      bind-Quiet w I calm (blocks (payload (block b64 b)) b total)
        (if_well-Quiet w I calm (send_blocks-Quiet b64 total (b + 1) rest))

  send_if_ready-Quiet : (b64 : Str) (ok : Bool) → Quiet w I (send_if_ready w b64 ok)
  unfolding send_if_ready plain
  send_if_ready-Quiet b64 true = send_blocks-Quiet b64 (block_count b64) 0 (block_count b64)
  send_if_ready-Quiet b64 false = give-Quiet w I calm _

  pub send_work-Quiet : (b64 : Str) → Quiet w I (send_work w b64)
  unfolding send_work plain
  send_work-Quiet b64 =
      then-Quiet w I calm (enter-Quiet w I calm ready refl)
        (bind-Quiet w I calm (wait_marker-Quiet w I calm r_ready) (send_if_ready-Quiet b64))

module _ (w : Guest) (bytes : List ℕ) (I : Console → Type 0) (t : Traced I)
    (engaged : Quiet w I (import_engaged w bytes)) where
  import_at_prompt-Quiet : (ok : Bool) → Quiet w I (import_at_prompt w bytes ok)
  unfolding import_at_prompt
  import_at_prompt-Quiet true = bind-Triple (take-Quiet w I t) (λ _. engaged)
  import_at_prompt-Quiet false = give-Quiet w I t.calm _

  import_body-Quiet : Quiet w I (import_body w bytes)
  unfolding import_body plain
  import_body-Quiet =
      bind-Triple (note-Quiet w I t.calm (shown preparing) refl)
        (λ _. bind-Triple (ensure_shell-Quiet w I t.calm) import_at_prompt-Quiet)

  pub import_work-keeps : (c : Console) → I c → I (import_work w bytes c).console
  unfolding import_work import_held
  import_work-keeps c i =
      if_keep (λ (o : Outcome Imported). I o.console) c.busy {x = give busy_already c}
        {y = import_held w bytes (begin c)} i
        (clean_up-keeps w I t.calm t.released load_files (import_body w bytes (begin c)).console
          (Quiet-keeps w I import_body-Quiet (begin c) (t.begun c i)))
