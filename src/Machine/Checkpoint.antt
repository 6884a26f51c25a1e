-- ===== src/Machine/Checkpoint.antt =====
-- web/serialfs.js: checkpoint and rollback.
use bashtion_wasm.Base.{
  ℕ, Bool, true, false, not, ◌||◌, [], ◌∷◌, ◌++◌, Option, none, some, codes, Str, if◌then◌else◌,
}
use bashtion_wasm.Machine.{
  stop, layer, savevm, loadvm, info_snapshots, preparing, saving, going_back, no_prompt, not_saved,
  not_back, unsynced_saved, unsynced_back, saved, back, keys, modes_back, blurred, focused, shown,
  sync_line, told, earlier_gone, reload_page, saved_now, saved_unset, back_now, back_unset, World,
  Page, Ran, Step, give, ◌>>=◌, finally, note, assign, page_of, paste, wait_shell, no_answer, mux,
  run, why_of, leave,
}

-- `ensureShell()`: Ctrl-U and Enter, and a prompt within 8 s.
unfoldable pub ensure_shell : World → Step Bool
ensure_shell w = paste w (keys (0x15 ∷ b'\n' ∷ [])) >>= λ _. wait_shell w

-- `resync()`; `sync_line` is the line of commands that it types.
unfoldable pub resync : World → Step Bool
resync w = paste w sync_line >>= λ _. wait_shell w

-- `if (!why) why = await ...`.
abbrev pub if_well : Step (Option Str) → Option Str → Step (Option Str)
if_well next none = next
if_well next (some why) = give (some why)

abbrev pub unless_heard : Bool → Option Str
unless_heard true = none
unless_heard false = some no_answer

-- `why || resumed`.
abbrev pub or_why : Option Str → Option Str → Option Str
or_why none b = b
or_why (some a) b = some a

-- Ctrl-A c, and `stop`.
unfoldable pub stop_machine : World → Step (Option Str)
stop_machine w = mux w >>= λ ok. if_well (why_of w stop) (unless_heard ok)

abbrev pub is_well : Option Str → Bool
is_well none = true
is_well (some _) = false

-- The qcow2 layer, the first time only.
unfoldable pub add_layer : World → Page → Step (Option Str)
add_layer w p =
    if p.layered
    then give none
    else why_of w layer >>= λ why.
        assign (λ p. record p { layered = is_well why }) >>= λ _. give why

abbrev pub now : World → Step ℕ
now w c = record { console = c; value = some (w.clock c.time) }

-- A failed save may have taken the earlier checkpoint with it.
unfoldable pub report_gone : Option ℕ → Str → Step (Option Str)
report_gone none why = give (some why)
report_gone (some _) why =
    note (told earlier_gone) >>= λ _. give (some (why ++ codes " Your earlier checkpoint is gone."))

unfoldable pub check_slot : Option ℕ → Str → Ran → Step (Option Str)
check_slot earlier why list =
    if not (is_well list.why) || not list.lists_tag
    then (assign (λ p. record p { saved_at = none }) >>= λ _. report_gone earlier why)
    else give (some why)

abbrev pub taken_at : ℕ → Page → Page
taken_at t p = record p { saved_at = some t }

unfoldable pub after_save : World → Option ℕ → Option Str → Step (Option Str)
after_save w earlier none = now w >>= λ t. assign (taken_at t) >>= λ _. give none
after_save w earlier (some why) = run w info_snapshots >>= check_slot earlier why

unfoldable pub save_state : World → Option ℕ → Step (Option Str)
save_state w earlier = why_of w savevm >>= after_save w earlier

unfoldable pub sync_unless : World → Bool → Step Bool
sync_unless w true = give false
sync_unless w false = resync w >>= λ ok. give (not ok)

-- The last word: a failure wins over what the re-sync did.
unfoldable pub report_saved : Option Str → Bool → Step Bool
report_saved (some why) unsynced = note (shown not_saved (some why)) >>= λ _. give false
report_saved none true =
    note (shown unsynced_saved none) >>= λ _. note (told saved_unset) >>= λ _. give true
report_saved none false = note (shown saved none) >>= λ _. note (told saved_now) >>= λ _. give true

-- From the monitor back to the shell, behind a save that ended with `why`.
unfoldable pub end_save : World → Option Str → Step Bool
end_save w why = leave w true >>= λ resumed. page_of >>= λ p. sync_unless w p.paused >>= λ unsynced.
    note focused >>= λ _. report_saved (or_why why resumed) unsynced

unfoldable pub save_from : World → Page → Step Bool
save_from w p = note blurred >>= λ _.
    stop_machine w
    >>= if_well (page_of >>= add_layer w)
    >>= if_well (save_state w p.saved_at)
    >>= end_save w

unfoldable pub save_at_prompt : World → Bool → Step Bool
save_at_prompt w false = note (shown no_prompt none) >>= λ _. give false
save_at_prompt w true = note (shown saving none) >>= λ _. page_of >>= save_from w

abbrev pub release : Page → Page
release p = record p { busy = false }

-- The `finally` of both: leave the monitor, and release the console whatever happens.
unfoldable pub clean_up : World → (Page → Bool) → Step Unit
clean_up w resume =
    finally (page_of >>= λ p. leave w (resume p) >>= λ _. note focused) (assign release)

abbrev pub always : Page → Bool
always p = true

unfoldable pub checkpoint_held : World → Step Bool
checkpoint_held w =
    finally (note (shown preparing none) >>= λ _. ensure_shell w >>= save_at_prompt w)
      (clean_up w always)

unfoldable pub checkpoint : World → Step Bool
checkpoint w c =
    if c.page.busy
    then give false c
    else (assign (λ p. record p { busy = true }) >>= λ _. checkpoint_held w) c

-- `loadvm`, after which the machine is not resumed unless it answered cleanly.
unfoldable pub after_load : Option Str → Step (Option Str)
after_load none = assign (λ p. record p { resumable = true }) >>= λ _. give none
after_load (some why) =
    note (told reload_page) >>= λ _. give (some (why ++ codes " Reload the page to start again."))

unfoldable pub load_state : World → Step (Option Str)
load_state w = assign (λ p. record p { resumable = false }) >>= λ _. why_of w loadvm >>= after_load

unfoldable pub sync_if : World → Bool → Step Bool
sync_if w true = resync w
sync_if w false = give false

unfoldable pub report_back : Bool → Step Bool
report_back true = note (shown back none) >>= λ _. note (told back_now) >>= λ _. give true
report_back false =
    note (shown unsynced_back none) >>= λ _. note (told back_unset) >>= λ _. give true

unfoldable pub end_load : World → Option Str → Step Bool
end_load w (some why) = note (shown not_back (some why)) >>= λ _. give false
end_load w none = note modes_back >>= λ _.
    ensure_shell w >>= sync_if w >>= λ synced. note focused >>= λ _. report_back synced

abbrev pub is_resumable : Page → Bool
is_resumable p = p.resumable

unfoldable pub load_body : World → Step Bool
load_body w = note (shown going_back none) >>= λ _. note blurred >>= λ _.
    stop_machine w >>= if_well (load_state w) >>= λ why.
    page_of >>= λ p. leave w p.resumable >>= λ resumed. end_load w (or_why why resumed)

unfoldable pub rollback_held : World → Step Bool
rollback_held w = finally (load_body w) (clean_up w is_resumable)

abbrev pub has_none : Option ℕ → Bool
has_none none = true
has_none (some _) = false

unfoldable pub rollback : World → Step Bool
rollback w c =
    if c.page.busy || has_none c.page.saved_at
    then give false c
    else (assign (λ p. record p { busy = true; resumable = true }) >>= λ _. rollback_held w) c
