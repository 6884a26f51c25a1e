-- ===== src/Machine/Tame.antt =====
-- The steps of both operations throw only where a paste does.
use bashtion_wasm.Base.{
  if_keep, ℕ, Bool, true, false, not, ◌&&◌, ◌||◌, [], ◌∷◌, Option, none, some, Bool-cases, inl, inr,
  arith, Str, codes,
}
use bashtion_wasm.Machine.{
  Command, stop, layer, savevm, cont, info_snapshots, Act, keys, typed, answered, sync_line, told,
  earlier_gone, Reply, World, Page, Ran, Step, note, assign, page_of, paste, wait_reply, wait_shell,
  heard, in_monitor, type_switch, end_bracketed, await_monitor, mux, carried_out, error_of, judge,
  read_reply, run, why_of, resume_if, leave_monitor, leave_from, leave,
}
use bashtion_wasm.Machine.Checkpoint.{
  ensure_shell, resync, if_well, unless_heard, stop_machine, is_well, add_layer, now, taken_at,
  report_gone, check_slot, after_save, save_state, sync_unless,
}
use bashtion_wasm.Machine.Triples.{Threw, Tame, bind-Tame, then-Tame, give-Tame}

module _ (w : World) where
  pub note-Tame : (a : Act) → Tame (Threw w) (note a)
  note-Tame a = record { tame = λ c e. absurd (cc) }

  pub assign-Tame : (f : Page → Page) → Tame (Threw w) (assign f)
  assign-Tame f = record { tame = λ c e. absurd (cc) }

  pub page_of-Tame : Tame (Threw w) page_of
  page_of-Tame = record { tame = λ c e. absurd (cc) }

  pub now-Tame : Tame (Threw w) (now w)
  now-Tame = record { tame = λ c e. absurd (cc) }

  pub wait_reply-Tame : Tame (Threw w) (wait_reply w)
  unfolding wait_reply
  wait_reply-Tame = record { tame = λ c e. absurd (cc) }

  pub wait_shell-Tame : Tame (Threw w) (wait_shell w)
  unfolding wait_shell
  wait_shell-Tame = record { tame = λ c e. absurd (cc) }

  pub paste-Tame : (a : Act) → Tame (Threw w) (paste w a)
  unfolding paste
  paste-Tame a = record {
    tame = λ c e. elim (Bool-cases (w.throws c.time)) [
      | inl threw ↦ (c.time, threw)
      | inr sent ↦ absurd (ground arith)
    ];
  }

  pub end_bracketed-Tame : Tame (Threw w) (end_bracketed w)
  unfolding end_bracketed
  end_bracketed-Tame = record { tame = λ c e. absurd (ground arith) }

  pub type_switch-Tame : Tame (Threw w) (type_switch w)
  type_switch-Tame = then-Tame (paste-Tame (keys (0x01 ∷ []))) (
      then-Tame (paste-Tame (keys (0x00 ∷ []))) (
        then-Tame (paste-Tame (keys (0x01 ∷ [])))
          (then-Tame (paste-Tame (keys (codes "c"))) (assign-Tame _))))

  pub await_monitor-Tame : (p : Page) → Tame (Threw w) (await_monitor w p)
  unfolding await_monitor
  await_monitor-Tame p =
      if_keep (Tame (Threw w)) (in_monitor p)
        (bind-Tame wait_reply-Tame (λ r. give-Tame (Threw w) (heard r))) (give-Tame (Threw w) true)

  pub mux-Tame : Tame (Threw w) (mux w)
  unfolding mux
  mux-Tame =
      then-Tame end_bracketed-Tame
        (then-Tame type_switch-Tame (bind-Tame page_of-Tame await_monitor-Tame))

  pub judge-Tame : (k : Command) (r : Reply) (why : Option Str) → Tame (Threw w) (judge k r why)
  unfolding judge
  judge-Tame k r (some why) = then-Tame (note-Tame (answered k (some why))) (give-Tame (Threw w) _)
  judge-Tame k r none =
      then-Tame (note-Tame (answered k none))
        (then-Tame (assign-Tame (carried_out k)) (give-Tame (Threw w) _))

  pub read_reply-Tame : (k : Command) (r : Option Reply) → Tame (Threw w) (read_reply k r)
  unfolding read_reply
  read_reply-Tame k none = give-Tame (Threw w) _
  read_reply-Tame k (some r) = judge-Tame k r (error_of k r)

  pub run-Tame : (k : Command) → Tame (Threw w) (run w k)
  unfolding run
  run-Tame k =
      then-Tame (assign-Tame _)
        (then-Tame (paste-Tame (typed k)) (bind-Tame wait_reply-Tame (read_reply-Tame k)))

  pub why_of-Tame : (k : Command) → Tame (Threw w) (why_of w k)
  why_of-Tame k = bind-Tame (run-Tame k) (λ r. give-Tame (Threw w) r.why)

  pub resume_if-Tame : (b : Bool) → Tame (Threw w) (resume_if w b)
  unfolding resume_if
  resume_if-Tame true = why_of-Tame cont
  resume_if-Tame false = give-Tame (Threw w) none

  pub leave_from-Tame : (resume : Bool) (p : Page) → Tame (Threw w) (leave_from w resume p)
  unfolding leave_from leave_monitor
  leave_from-Tame resume p =
      if_keep (Tame (Threw w)) (in_monitor p)
        (then-Tame (assign-Tame _) (
          bind-Tame (resume_if-Tame (resume && (p.unanswered || p.paused)))
            (λ why. then-Tame mux-Tame (give-Tame (Threw w) why))))
        (give-Tame (Threw w) none)

  pub leave-Tame : (resume : Bool) → Tame (Threw w) (leave w resume)
  unfolding leave
  leave-Tame resume = bind-Tame page_of-Tame (leave_from-Tame resume)

  pub ensure_shell-Tame : Tame (Threw w) (ensure_shell w)
  unfolding ensure_shell
  ensure_shell-Tame = then-Tame (paste-Tame (keys (0x15 ∷ b'\n' ∷ []))) wait_shell-Tame

  pub resync-Tame : Tame (Threw w) (resync w)
  unfolding resync
  resync-Tame = then-Tame (paste-Tame sync_line) wait_shell-Tame

  pub if_well-Tame :
      {next : Step (Option Str)}
      → Tame (Threw w) next
      → (why : Option Str) → Tame (Threw w) (if_well next why)
  if_well-Tame h none = h
  if_well-Tame h (some why) = give-Tame (Threw w) (some why)

  pub stop_machine-Tame : Tame (Threw w) (stop_machine w)
  unfolding stop_machine
  stop_machine-Tame = bind-Tame mux-Tame (λ ok. if_well-Tame (why_of-Tame stop) (unless_heard ok))

  pub add_layer-Tame : (p : Page) → Tame (Threw w) (add_layer w p)
  unfolding add_layer
  add_layer-Tame p =
      if_keep (Tame (Threw w)) p.layered (give-Tame (Threw w) none)
        (bind-Tame (why_of-Tame layer) (λ why. then-Tame (assign-Tame _) (give-Tame (Threw w) why)))

  pub report_gone-Tame : (earlier : Option ℕ) (why : Str) → Tame (Threw w) (report_gone earlier why)
  unfolding report_gone
  report_gone-Tame none why = give-Tame (Threw w) (some why)
  report_gone-Tame (some t) why = then-Tame (note-Tame (told earlier_gone)) (give-Tame (Threw w) _)

  pub check_slot-Tame :
      (earlier : Option ℕ) (why : Str) (list : Ran) → Tame (Threw w) (check_slot earlier why list)
  unfolding check_slot
  check_slot-Tame earlier why list =
      if_keep (Tame (Threw w)) (not (is_well list.why) || not list.lists_tag)
        (then-Tame (assign-Tame _) (report_gone-Tame earlier why)) (give-Tame (Threw w) (some why))

  pub after_save-Tame :
      (earlier : Option ℕ) (why : Option Str) → Tame (Threw w) (after_save w earlier why)
  unfolding after_save
  after_save-Tame earlier none =
      bind-Tame now-Tame (λ t. then-Tame (assign-Tame (taken_at t)) (give-Tame (Threw w) none))
  after_save-Tame earlier (some why) =
      bind-Tame (run-Tame info_snapshots) (check_slot-Tame earlier why)

  pub save_state-Tame : (earlier : Option ℕ) → Tame (Threw w) (save_state w earlier)
  unfolding save_state
  save_state-Tame earlier = bind-Tame (why_of-Tame savevm) (after_save-Tame earlier)

  pub sync_unless-Tame : (paused : Bool) → Tame (Threw w) (sync_unless w paused)
  unfolding sync_unless
  sync_unless-Tame true = give-Tame (Threw w) false
  sync_unless-Tame false = bind-Tame resync-Tame (λ ok. give-Tame (Threw w) (not ok))
