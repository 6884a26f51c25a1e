-- ===== src/Transfer/Complete.antt =====
-- importWork with a guest that answers everything.
use mathlib.Core.Path.{subst}
use mathlib.Core.List.{append_assoc, append-nil}
use bashtion_wasm.Base.{
  ℕ, zero, suc, ◌+◌, ◌≡◌, refl, sym, ap, ◌∙◌, false, List, [], ◌++◌, Option, none, some, Str,
  length,
}
use bashtion_wasm.Steps.{◌>>=◌}
use bashtion_wasm.Steps.Triples.{Ends}
use bashtion_wasm.Whitespace.{trim}
use bashtion_wasm.Transfer.Payload.{b64encode, payload, block, block_count}
use bashtion_wasm.Transfer.Payload.Joined.{payloads}
use bashtion_wasm.Transfer.Shell.{r_ready, r_go, r_blk, go, ready}
use bashtion_wasm.Transfer.Console.{
  progress, preparing, restoring, sent, entered, Guest, Console, console_of,
}
use bashtion_wasm.Transfer.Restore.{
  restored, confirm_block, fill_block, send_block, if_well, send_blocks, send_if_ready, send_work,
  check_work, unpack_work, import_engaged, import_at_prompt, import_body, set_engaged, begin,
  release, recover_if, load_files, home_only_behind, import_held, import_work, clean_up,
}
use bashtion_wasm.Transfer.Willing.{
  sent_text, Willing, Sent, Gives, bind-Gives, then-Gives, finally_then, outcome, paste-Gives,
  wait_marker-Gives, give-Gives, show-Gives, ensure_shell-Gives, recover_if-Gives, assign-Gives,
  check_work-Gives, unpack_work-Gives,
}

module _ (w : Guest) (bytes : List ℕ) (said : Str) (k : Willing w bytes said) where
  sent_block-Gives :
      (t text : Str) (b total : ℕ) → Gives t none (t ++ text) (send_block w text b total)
  unfolding send_block fill_block confirm_block sent_text
  sent_block-Gives t text b total =
      let u = t ++ text in
      then-Gives t t u (paste-Gives w bytes said k t (entered (go (length text))) t (λ past p. p)) (
        bind-Gives t t u _ (wait_marker-Gives w bytes said k t r_go) (
          then-Gives t u u
            (paste-Gives w bytes said k t (sent text) u (λ past p. ap (λ (s : Str). s ++ text) p))
            (bind-Gives u u u _ (wait_marker-Gives w bytes said k u r_blk) (
              then-Gives u u u (show-Gives w bytes said k u (progress (b + 1) total))
                (give-Gives w bytes said k u none)))))

  send_blocks-Gives :
      (b64 t : Str) (total b rest : ℕ)
      → Gives t none (t ++ payloads b64 b rest) (send_blocks w b64 total b rest)
  unfolding send_blocks payloads
  send_blocks-Gives b64 t total b zero = record { ends = λ c p. (refl, p ∙ sym (append-nil t)) }
  send_blocks-Gives b64 t total b (suc rest) =
      let here = payload (block b64 b) in
      let all = t ++ (here ++ payloads b64 (b + 1) rest) in
      let later : Gives (t ++ here) none all (send_blocks w b64 total (b + 1) rest) =
        subst (λ u. Gives (t ++ here) none u (send_blocks w b64 total (b + 1) rest))
          (append_assoc t here (payloads b64 (b + 1) rest))
          (send_blocks-Gives b64 (t ++ here) total (b + 1) rest) in
      bind-Gives t (t ++ here) all _ (sent_block-Gives t here b total) later

  send_work-Gives :
      (b64 : Str) (t : Str) → Gives t none (t ++ payloads b64 0 (block_count b64)) (send_work w b64)
  unfolding send_work send_if_ready sent_text
  send_work-Gives b64 t =
      let u = t ++ payloads b64 0 (block_count b64) in
      then-Gives t t u (paste-Gives w bytes said k t (entered ready) t (λ past p. p)) (
        bind-Gives t t u (send_if_ready w b64) (wait_marker-Gives w bytes said k t r_ready)
          (send_blocks-Gives b64 t (block_count b64) 0 (block_count b64)))

  abbrev all_of : Str → Str
  all_of t = t ++ payloads (b64encode w.btoa bytes) 0 (block_count (b64encode w.btoa bytes))

  import_engaged-Gives :
      (t : Str) → Gives t (outcome w bytes said k t) (all_of t) (import_engaged w bytes)
  unfolding import_engaged
  import_engaged-Gives t =
      let u = all_of t in
      then-Gives t t u (show-Gives w bytes said k t restoring) (
        bind-Gives t u u (unpack_work w)
          (bind-Gives t u u (if_well (check_work w bytes))
            (send_work-Gives (b64encode w.btoa bytes) t) (check_work-Gives w bytes said k u))
          (unpack_work-Gives w bytes said k u))

  import_body-Gives :
      (t : Str) → Gives t (outcome w bytes said k t) (all_of t) (import_body w bytes)
  unfolding import_body import_at_prompt
  import_body-Gives t = then-Gives t t (all_of t) (show-Gives w bytes said k t preparing) (
      bind-Gives t t (all_of t) (import_at_prompt w bytes) (ensure_shell-Gives w bytes said k t) (
        then-Gives t t (all_of t) (assign-Gives w bytes said k t set_engaged (λ c. refl))
          (import_engaged-Gives t)))

  recovered-Gives : (t : Str) (files : Str) → Gives t tt t (console_of >>= recover_if w files)
  recovered-Gives t files = record {
    ends = λ c p. (recover_if-Gives w bytes said k t files c).ends c p;
  }

  clean_up-Gives : (t : Str) (files : Str) → Gives t tt t (clean_up w files)
  unfolding clean_up
  clean_up-Gives t files =
      finally_then t t t (recovered-Gives t files)
        (assign-Gives w bytes said k t release (λ c. refl))

  import_held-Gives :
      (t : Str) → Gives t (outcome w bytes said k t) (all_of t) (import_held w bytes)
  unfolding import_held
  import_held-Gives t =
      finally_then t (all_of t) (all_of t) (import_body-Gives t)
        (clean_up-Gives (all_of t) load_files)

given :
    {A : Type 0} (u : Str) (a : A) (v : Option A) (c : Console)
    → Ends (λ b c. (b ≡ a) × Sent u c) (λ c. ⊥) v c
    → (v ≡ some a) × (sent_text c.acts ≡ u)
given u a none c h = absurd h
given u a (some b) c h = (ap some h.0, h.1)

-- With a console that is free and takes every paste, and a guest that answers every wait, reports the size
-- and the checksum of the file, and can unpack it, importWork returns that the work was restored, by what
-- the guest says of it; and the guest was sent the payloads of all blocks, in order, and no others.
pub import_work-completes :
    (w : Guest) (bytes : List ℕ) (said : Str)
    → Willing w bytes said
    → (c : Console) → c.busy ≡ false
    → ((import_work w bytes c).value ≡ some (restored (home_only_behind false (trim said))))
      × (sent_text (import_work w bytes c).console.acts
          ≡ sent_text c.acts
            ++ payloads (b64encode w.btoa bytes) 0 (block_count (b64encode w.btoa bytes)))
unfolding import_work
import_work-completes w bytes said k c idle = rw idle (
    given (all_of w bytes said k (sent_text c.acts)) (outcome w bytes said k []) _ _
      ((import_held-Gives w bytes said k (sent_text c.acts)).ends (begin c) refl))
