-- ===== src/Transfer/Settled.antt =====
-- How a transfer leaves the console and the guest's terminal.
use bashtion_wasm.Base.{ℕ, ◌≡◌, refl, Bool, true, false, List, ◌∷◌, Option, none, some, Str}
use bashtion_wasm.Steps.{◌>>=◌, finally}
use bashtion_wasm.Steps.Triples.{
  Ends, Triple, bind-Triple, finally-Triple, post-Triple, weaken-Triple,
}
use bashtion_wasm.Transfer.Payload.{b64encode}
use bashtion_wasm.Transfer.Shell.{unpack}
use bashtion_wasm.Transfer.Console.{
  no_prompt, Failure, Overlay, preparing, restoring, failed, entered, shown, Guest, Console,
  Outcome, Step, show, assign, enter,
}
use bashtion_wasm.Transfer.Restore.{
  not_restored, import_engaged, import_at_prompt, import_body, set_engaged, clean_up, begin,
  load_files, import_held, import_work, if_well, send_work, check_work,
}
use bashtion_wasm.Transfer.Save.{
  save_files, export_at_prompt, export_body, export_held, export_work,
}
use bashtion_wasm.Transfer.Terminal.{terminal, Echoes, unpack-Free}
use bashtion_wasm.Transfer.Quiet.{Threw, Quiet, paste-Quiet}
use bashtion_wasm.Transfer.Quiet.Restore.{
  send_block-Quiet, send_work-Quiet, if_well-Quiet, check_work-Quiet, unpack_work-Quiet,
}
use bashtion_wasm.Transfer.Quiet.Save.{export_engaged-Quiet}
use bashtion_wasm.Transfer.Recovery.{
  Unclean, Taken, Aside, Held, Leaves, Unclean-Calm, Taken-Calm, Taken-Marked, Unclean-Taken,
  give-Leaves, ensure_shell-Aside, looked_at, passed_through, cleaned-Echoes,
}

module _ (w : Guest) where
  engage-Unclean : Leaves w Aside Unclean (assign set_engaged)
  engage-Unclean = record { ends = λ c e. (refl, e.1) }

  Taken-Held : (c : Console) → Taken c → Held c
  Taken-Held c t = (λ aside. absurd (cc (t.0, aside)), t.1)

  Aside-Held : (c : Console) → Aside c → Held c
  Aside-Held c e = (λ aside. e.0, λ clean. absurd (cc (clean, e.1)))

  engage-Leaves :
      {A : Type 0} {m : Step A}
      → Leaves w Unclean Taken m
      → Leaves w Aside Held (assign set_engaged >>= λ _. m)
  engage-Leaves h =
      bind-Triple engage-Unclean (λ _. post-Triple (λ a. Taken) (λ a. Held) (λ a. Taken-Held) h)

  not_engaged-Leaves : {A : Type 0} {m : Step A} → Leaves w Aside Aside m → Leaves w Aside Held m
  not_engaged-Leaves h = post-Triple (λ a. Aside) (λ a. Held) (λ a. Aside-Held) h

  show-Echoes :
      (o : Overlay) (c : Console) → Echoes c → Echoes (record c { acts = shown o ∷ c.acts })
  unfolding terminal
  show-Echoes o c e = record { on = e.on; free = e.free }

  show-Aside : (o : Overlay) → Leaves w Aside Aside (show o)
  show-Aside o = record { ends = λ c e. (show-Echoes o c e.0, e.1) }

  show-Unclean : (o : Overlay) → Leaves w Unclean Unclean (show o)
  show-Unclean o = record { ends = λ c u. u }

  -- The archive is sent before `clean` is set; what follows sets it behind a report only.
  sent-Unclean : (b64 : Str) → Leaves w Unclean Unclean (send_work w b64)
  sent-Unclean b64 = looked_at w Unclean (
      send_work-Quiet w Unclean Unclean-Calm
        (send_block-Quiet w Unclean Unclean-Calm (λ c n i. i) (λ c text i. i)) b64)

  check_if-Taken :
      (bytes : List ℕ) (why : Option Failure)
      → Leaves w Unclean Taken (if_well (check_work w bytes) why)
  check_if-Taken bytes why = weaken-Triple Unclean-Taken (
      looked_at w Taken (
        if_well-Quiet w Taken Taken-Calm (check_work-Quiet w Taken Taken-Calm Taken-Marked bytes)
          why))

  unpacks : Quiet w Taken (enter w unpack)
  unpacks =
      paste-Quiet w Taken (entered unpack) (λ c i. (i.0, λ clean. unpack-Free c.acts (i.1 clean)))
        (λ c i. i)

  import_engaged-Taken : (bytes : List ℕ) → Leaves w Unclean Taken (import_engaged w bytes)
  unfolding import_engaged
  import_engaged-Taken bytes = bind-Triple (show-Unclean restoring) (λ _.
      bind-Triple (bind-Triple (sent-Unclean (b64encode w.btoa bytes)) (check_if-Taken bytes))
        (λ why. looked_at w Taken (unpack_work-Quiet w Taken Taken-Calm Taken-Marked unpacks why)))

  import_at_prompt-Held :
      (bytes : List ℕ) (ok : Bool) → Leaves w Aside Held (import_at_prompt w bytes ok)
  unfolding import_at_prompt
  import_at_prompt-Held bytes true = engage-Leaves (import_engaged-Taken bytes)
  import_at_prompt-Held bytes false =
      not_engaged-Leaves (give-Leaves w Aside Aside (not_restored no_prompt) (λ c e. e))

  export_at_prompt-Held : (ok : Bool) → Leaves w Aside Held (export_at_prompt w ok)
  unfolding export_at_prompt
  export_at_prompt-Held true = engage-Leaves (
      weaken-Triple Unclean-Taken
        (looked_at w Taken (export_engaged-Quiet w Taken Taken-Calm Taken-Marked)))
  export_at_prompt-Held false =
      not_engaged-Leaves (
        bind-Triple (show-Aside (failed no_prompt))
          (λ _. give-Leaves w Aside Aside none (λ c e. e)))

  import_body-Held : (bytes : List ℕ) → Leaves w Aside Held (import_body w bytes)
  unfolding import_body
  import_body-Held bytes =
      bind-Triple (show-Aside preparing)
        (λ _. bind-Triple (ensure_shell-Aside w) (import_at_prompt-Held bytes))

  export_body-Held : Leaves w Aside Held (export_body w)
  unfolding export_body
  export_body-Held =
      bind-Triple (show-Aside preparing)
        (λ _. bind-Triple (ensure_shell-Aside w) export_at_prompt-Held)

  -- In front of the cleanup, however the body ended.
  tidied :
      {A : Type 0} (files : Str) (v : Option A)
      → Triple
          (Ends (λ a. Held) (λ c. Threw w) v)
          (λ t. Ends (λ a. Echoes) (λ c. Threw w) v)
          (λ c. Threw w)
          (clean_up w files)
  tidied files none = passed_through w (clean_up w files)
  tidied files (some a) = cleaned-Echoes w files

  cleaned_finally :
      {A : Type 0} (files : Str) {m : Step A}
      → Leaves w Aside Held m
      → Leaves w Aside Echoes (finally m (clean_up w files))
  cleaned_finally files h =
      finally-Triple (λ a. Held) (λ c. Threw w) (λ a. Echoes) (λ c. Threw w) h (tidied files)

-- How a transfer ends: with the console released and, unless a paste threw, with a value and the terminal
-- as the user wants it.
pub record Settled {A : Type 0} (w : Guest) (o : Outcome A) : Type 0 where
  pub idle : o.console.busy ≡ false
  pub echoes : (a : A) → o.value ≡ some a → Echoes o.console
  pub thrown : o.value ≡ none → Threw w

clean_up-busy : (w : Guest) (files : Str) (c : Console) → (clean_up w files c).console.busy ≡ false
unfolding clean_up
clean_up-busy w files c = refl

ended_on :
    {A : Type 0} (w : Guest) (v : Option A) (c : Console) (a : A)
    → Ends (λ a. Echoes) (λ c. Threw w) v c
    → v ≡ some a
    → Echoes c
ended_on w none c a h e = absurd (cc)
ended_on w (some b) c a h e = h

ended_thrown :
    {A : Type 0} (w : Guest) (v : Option A) (c : Console)
    → Ends (λ a. Echoes) (λ c. Threw w) v c
    → v ≡ none
    → Threw w
ended_thrown w none c h e = h
ended_thrown w (some b) c h e = absurd (cc)

operation-Settled :
    {A : Type 0} (w : Guest) (files : Str) (m : Step A) (c : Console)
    → Leaves w Aside Held m
    → Aside c
    → Settled w (finally m (clean_up w files) c)
operation-Settled w files m c h e =
    let o = finally m (clean_up w files) c in
    let ends = (cleaned_finally w files h).ends c e in
    record {
      idle = clean_up-busy w files (m c).console;
      echoes = λ a. ended_on w o.value o.console a ends;
      thrown = ended_thrown w o.value o.console ends;
    }

-- On a console where no operation runs, whose terminal echoes and is read by the shell alone, importWork
-- and exportWork both release the console whatever happens; unless a paste throws they return, and then
-- the terminal echoes again and no reader has it, whatever the guest answered on the way. What is typed
-- while a reader may run counts as read by it; Ctrl-C ends it, and the word behind a block and a report
-- that the shell prints show that none runs.
pub transfers-Settled :
    (w : Guest) (bytes : List ℕ) (c : Console)
    → c.busy ≡ false
    → Echoes c
    → Settled w (import_work w bytes c) × Settled w (export_work w c)
unfolding import_work export_work import_held export_held
transfers-Settled w bytes c idle e = rw idle (
  operation-Settled w load_files (import_body w bytes) (begin c) (import_body-Held w bytes)
      (begun e),
  operation-Settled w save_files (export_body w) (begin c) (export_body-Held w) (begun e),
)
  where
    begun : Echoes c → Aside (begin c)
    begun e = (record { on = e.on; free = e.free }, refl)
