-- ===== src/Machine/Settled.antt =====
-- A checkpoint and a rollback give the console back, and throw only where a paste does.
use bashtion_wasm.Base.{if_keep, ◌≡◌, refl, Bool, true, false, ◌||◌, Option, none, some, Str}
use bashtion_wasm.Machine.{
  loadvm, told, reload_page, saved_now, saved_unset, back_now, back_unset, shown, preparing, saving,
  going_back, no_prompt, not_saved, not_back, unsynced_saved, unsynced_back, saved, back,
  modes_back, blurred, focused, World, Page, Console, Outcome, Step, give, ◌>>=◌, finally, note,
  leave,
}
use bashtion_wasm.Machine.Checkpoint.{
  or_why, report_saved, end_save, save_from, save_at_prompt, release, clean_up, always,
  checkpoint_held, checkpoint, after_load, load_state, sync_if, report_back, end_load, is_resumable,
  load_body, rollback_held, has_none, rollback,
}
use bashtion_wasm.Machine.Triples.{
  Threw, Tame, bind-Tame, then-Tame, give-Tame, finally-Tame, Returned, Gets, Gets-bind,
  finally-Gets,
}
use bashtion_wasm.Machine.Serial.{OnSerial, Always, leave-Gets, focus-OnSerial}
use bashtion_wasm.Machine.Tame.{
  note-Tame, assign-Tame, page_of-Tame, why_of-Tame, leave-Tame, ensure_shell-Tame, resync-Tame,
  if_well-Tame, stop_machine-Tame, add_layer-Tame, save_state-Tame, sync_unless-Tame,
}

module _ (w : World) where
  report_saved-Tame :
      (why : Option Str) (unsynced : Bool) → Tame (Threw w) (report_saved why unsynced)
  unfolding report_saved
  report_saved-Tame (some why) unsynced =
      then-Tame (note-Tame w (shown not_saved (some why))) (give-Tame (Threw w) false)
  report_saved-Tame none true =
      then-Tame (note-Tame w (shown unsynced_saved none))
        (then-Tame (note-Tame w (told saved_unset)) (give-Tame (Threw w) true))
  report_saved-Tame none false =
      then-Tame (note-Tame w (shown saved none))
        (then-Tame (note-Tame w (told saved_now)) (give-Tame (Threw w) true))

  end_save-Tame : (why : Option Str) → Tame (Threw w) (end_save w why)
  unfolding end_save
  end_save-Tame why = bind-Tame (leave-Tame w true) (λ resumed. bind-Tame (page_of-Tame w) (λ p.
      bind-Tame (sync_unless-Tame w p.paused) (λ unsynced.
        then-Tame (note-Tame w focused) (report_saved-Tame (or_why why resumed) unsynced))))

  save_from-Tame : (p : Page) → Tame (Threw w) (save_from w p)
  unfolding save_from
  save_from-Tame p = then-Tame (note-Tame w blurred) (
      bind-Tame
        (bind-Tame
          (bind-Tame (stop_machine-Tame w)
            (if_well-Tame w (bind-Tame (page_of-Tame w) (add_layer-Tame w))))
          (if_well-Tame w (save_state-Tame w p.saved_at)))
        end_save-Tame)

  save_at_prompt-Tame : (ok : Bool) → Tame (Threw w) (save_at_prompt w ok)
  unfolding save_at_prompt
  save_at_prompt-Tame false =
      then-Tame (note-Tame w (shown no_prompt none)) (give-Tame (Threw w) false)
  save_at_prompt-Tame true =
      then-Tame (note-Tame w (shown saving none)) (bind-Tame (page_of-Tame w) save_from-Tame)

  clean_up-Tame : (resume : Page → Bool) → Tame (Threw w) (clean_up w resume)
  unfolding clean_up
  clean_up-Tame resume =
      finally-Tame
        (bind-Tame (page_of-Tame w)
          (λ p. then-Tame (leave-Tame w (resume p)) (note-Tame w focused)))
        (assign-Tame w release)

  checkpoint_held-Tame : Tame (Threw w) (checkpoint_held w)
  unfolding checkpoint_held
  checkpoint_held-Tame =
      finally-Tame
        (then-Tame (note-Tame w (shown preparing none))
          (bind-Tame (ensure_shell-Tame w) save_at_prompt-Tame))
        (clean_up-Tame always)

  after_load-Tame : (why : Option Str) → Tame (Threw w) (after_load why)
  unfolding after_load
  after_load-Tame none = then-Tame (assign-Tame w _) (give-Tame (Threw w) none)
  after_load-Tame (some why) = then-Tame (note-Tame w (told reload_page)) (give-Tame (Threw w) _)

  load_state-Tame : Tame (Threw w) (load_state w)
  unfolding load_state
  load_state-Tame = then-Tame (assign-Tame w _) (bind-Tame (why_of-Tame w loadvm) after_load-Tame)

  sync_if-Tame : (ok : Bool) → Tame (Threw w) (sync_if w ok)
  unfolding sync_if
  sync_if-Tame true = resync-Tame w
  sync_if-Tame false = give-Tame (Threw w) false

  report_back-Tame : (synced : Bool) → Tame (Threw w) (report_back synced)
  unfolding report_back
  report_back-Tame true =
      then-Tame (note-Tame w (shown back none))
        (then-Tame (note-Tame w (told back_now)) (give-Tame (Threw w) true))
  report_back-Tame false =
      then-Tame (note-Tame w (shown unsynced_back none))
        (then-Tame (note-Tame w (told back_unset)) (give-Tame (Threw w) true))

  end_load-Tame : (why : Option Str) → Tame (Threw w) (end_load w why)
  unfolding end_load
  end_load-Tame (some why) =
      then-Tame (note-Tame w (shown not_back (some why))) (give-Tame (Threw w) false)
  end_load-Tame none = then-Tame (note-Tame w modes_back) (
      bind-Tame (bind-Tame (ensure_shell-Tame w) sync_if-Tame)
        (λ synced. then-Tame (note-Tame w focused) (report_back-Tame synced)))

  load_body-Tame : Tame (Threw w) (load_body w)
  unfolding load_body
  load_body-Tame = then-Tame (note-Tame w (shown going_back none)) (
      then-Tame (note-Tame w blurred) (
        bind-Tame (bind-Tame (stop_machine-Tame w) (if_well-Tame w load_state-Tame)) (λ why.
          bind-Tame (page_of-Tame w) (λ p.
            bind-Tame (leave-Tame w p.resumable) (λ resumed. end_load-Tame (or_why why resumed))))))

  rollback_held-Tame : Tame (Threw w) (rollback_held w)
  unfolding rollback_held
  rollback_held-Tame = finally-Tame load_body-Tame (clean_up-Tame is_resumable)

released_of :
    (v : Option Unit) (c : Console)
    → Returned OnSerial v c
    → Returned OnSerial v (record c { page = release c.page })
released_of none c h = tt
released_of (some u) c h = h

left-Gets :
    (w : World) (resume : Bool) → Gets Always OnSerial (leave w resume >>= λ _. note focused)
left-Gets w resume = Gets-bind (leave-Gets w resume) (λ _. focus-OnSerial)

clean_up-Gets : (w : World) (resume : Page → Bool) → Gets Always OnSerial (clean_up w resume)
unfolding clean_up
clean_up-Gets w resume = record {
  gets = λ c h.
      let left = leave w (resume c.page) >>= λ _. note focused in
      released_of (left c).value (left c).console ((left-Gets w (resume c.page)).gets c tt);
}

-- How an operation ends: with the console released and, unless a paste threw, with the mux back on
-- the serial side and a verdict.
pub record Settled (w : World) (o : Outcome Bool) : Type 0 where
  pub idle : o.console.page.busy ≡ false
  pub serial : (b : Bool) → o.value ≡ some b → OnSerial o.console
  pub thrown : o.value ≡ none → Threw w

at_value :
    (v : Option Bool) (c : Console) (b : Bool) → v ≡ some b → Returned OnSerial v c → OnSerial c
at_value none c b e h = absurd (cc)
at_value (some a) c b e h = h

clean_up-busy :
    (w : World) (resume : Page → Bool) (c : Console)
    → (clean_up w resume c).console.page.busy ≡ false
unfolding clean_up
clean_up-busy w resume c = refl

refused-Settled :
    (w : World) (c : Console) → c.page.busy ≡ false → OnSerial c → Settled w (give false c)
refused-Settled w c idle on_serial = record {
  idle = idle;
  serial = λ b e. on_serial;
  thrown = λ e. absurd (cc);
}

operation-Settled :
    (w : World) (body : Step Bool) (resume : Page → Bool) (c : Console)
    → Tame (Threw w) (finally body (clean_up w resume))
    → Settled w (finally body (clean_up w resume) c)
operation-Settled w body resume c t = record {
  idle = clean_up-busy w resume (body c).console;
  serial = λ b e.
      at_value (finally body (clean_up w resume) c).value
        (finally body (clean_up w resume) c).console b e
        ((finally-Gets body (λ c. tt) (clean_up-Gets w resume)).gets c tt);
  thrown = λ e. t.tame c e;
}

-- Taken up from the serial side with no other operation running, a checkpoint and a rollback both
-- leave the console released whatever happens; unless a paste throws they return, and with the mux
-- on the serial side again, so what is typed next reaches the guest and not the monitor.
pub operations-Settled :
    (w : World) (c : Console)
    → c.page.busy ≡ false
    → OnSerial c
    → Settled w (checkpoint w c) × Settled w (rollback w c)
unfolding checkpoint rollback checkpoint_held rollback_held
operations-Settled w c idle on_serial =
    let taken = record c { page = record c.page { busy = true } } in
    let begun = record c { page = record c.page { busy = true; resumable = true } } in
    let refused = refused-Settled w c idle on_serial in
    (
      if_keep (Settled w) c.page.busy {x = give false c} {y = checkpoint_held w taken} refused
          (operation-Settled w _ always taken (checkpoint_held-Tame w)),
      if_keep (Settled w) (c.page.busy || has_none c.page.saved_at) {x = give false c}
          {y = rollback_held w begun} refused
          (operation-Settled w (load_body w) is_resumable begun (rollback_held-Tame w)),
    )
