-- ===== src/Machine/Safety/Rollback.antt =====
-- When a rollback of web/serialfs.js may set the machine running: from a console on which it may run.
use bashtion_wasm.Base.{
  if_keep, ◌≡◌, refl, Bool, true, false, ◌||◌, List, [], ◌∷◌, Option, none, some, Option-cases, inl,
  inr, Str,
}
use bashtion_wasm.Machine.{
  stop, loadvm, Act, typed, modes_back, blurred, focused, shown, sync_line, told, going_back,
  not_back, unsynced_back, back, back_now, back_unset, Reply, World, Console, Ran, Outcome, Step,
  follow, give, ◌>>=◌, finally, note, page_of, paste, wait_reply, judge, read_reply, run, why_of,
  leave,
}
use bashtion_wasm.Machine.Checkpoint.{
  ensure_shell, resync, if_well, unless_heard, or_why, stop_machine, after_load, load_state,
  sync_if, report_back, end_load, is_resumable, release, clean_up, load_body, rollback_held,
  has_none, rollback,
}
use bashtion_wasm.Machine.Triples.{
  bind-Leads, then-Keeps, Keeps, bind-Keeps, give-Keeps, finally-Keeps,
}
use bashtion_wasm.Machine.Safety.{
  may_run, Safe, Guarded, Blind, blind, note-Guarded, paste-Guarded, assign-Guarded,
  wait_shell-Guarded, type-Guarded, mux-Guarded, why_of-Guarded,
}
use bashtion_wasm.Machine.Safety.Leave.{leave-Leads}

-- The machine held stopped, behind `loadvm`.
record Halted (c : Console) : Type 0 where
  safe : Safe c.acts
  held : c.page.resumable ≡ false

abbrev Verdict : Option Ran → Console → Type 0
Verdict none c = Halted c
Verdict (some r) c = Halted c × (r.why ≡ none → may_run c.acts ≡ true)

judge-Verdict :
    (r : Reply) (why : Option Str) (c : Console)
    → Halted c
    → Verdict (judge loadvm r why c).value (judge loadvm r why c).console
unfolding judge may_run
judge-Verdict r none c h = (record { safe = h.safe; held = h.held }, λ e. refl)
judge-Verdict r (some why) c h = (record { safe = h.safe; held = h.held }, λ e. absurd (cc))

read_reply-Verdict :
    (r : Option Reply) (c : Console)
    → Halted c
    → Verdict (read_reply loadvm r c).value (read_reply loadvm r c).console
unfolding read_reply
read_reply-Verdict none c h = (h, λ e. absurd (cc))
read_reply-Verdict (some r) c h = judge-Verdict r r.error c h

paste_loadvm-Halted :
    (w : World) (c : Console) → Halted c → Halted (paste w (typed loadvm) c).console
unfolding paste
paste_loadvm-Halted w c h =
    if_keep (λ (o : Outcome Unit). Halted o.console) (w.throws c.time)
      (record { safe = h.safe; held = h.held }) (record { safe = h.safe; held = h.held })

wait_read-Verdict :
    (w : World) (v : Option Unit) (c : Console)
    → Halted c
    → Verdict
        (follow (λ _. wait_reply w >>= read_reply loadvm) v c).value
        (follow (λ _. wait_reply w >>= read_reply loadvm) v c).console
unfolding wait_reply
wait_read-Verdict w none c h = h
wait_read-Verdict w (some u) c h =
    read_reply-Verdict (w.hears c.time) _ (record { safe = h.safe; held = h.held })

loadvm-Verdict :
    (w : World) (c : Console) → Halted c → Verdict (run w loadvm c).value (run w loadvm c).console
unfolding run
loadvm-Verdict w c h =
    wait_read-Verdict w (paste w (typed loadvm) c).value _ (paste_loadvm-Halted w c h)

after_load-Guarded :
    (v : Option Ran) (c : Console)
    → Verdict v c
    → Guarded
        (follow after_load
          (follow (λ (r : Ran). give r.why) v c).value
          (follow (λ (r : Ran). give r.why) v c).console).console
unfolding after_load may_run
after_load-Guarded none c h = record { safe = h.safe; honest = λ e. absurd (cc (e, h.held)) }
after_load-Guarded (some r) c h = elim (Option-cases r.why) [
  | inl well ↦ rw well (record { safe = h.0.safe; honest = λ e. h.1 well })
  | inr (why, failed) ↦
      rw failed (record { safe = h.0.safe; honest = λ e. absurd (cc (e, h.0.held)) })
]

load_state-Guarded : (w : World) → Keeps Guarded (load_state w)
unfolding load_state
load_state-Guarded w = record {
  keeps = λ c g.
      let c' = record c { page = record c.page { resumable = false } } in
      after_load-Guarded (run w loadvm c').value (run w loadvm c').console
        (loadvm-Verdict w c' (record { safe = g.safe; held = refl }));
}

ensure_shell-Guarded : (w : World) → Keeps Guarded (ensure_shell w)
unfolding ensure_shell
ensure_shell-Guarded w = then-Keeps (type-Guarded w (0x15 ∷ b'\n' ∷ [])) (wait_shell-Guarded w)

seen :
    (a : Act)
    → ((past : List Act) → Safe past → Safe (a ∷ past))
    → ((past : List Act) → may_run (a ∷ past) ≡ may_run past)
    → Keeps Guarded (note a)
seen a h e = note-Guarded a (record { adds = h; same = e })

sync_if-Guarded : (w : World) (ok : Bool) → Keeps Guarded (sync_if w ok)
unfolding sync_if resync may_run
sync_if-Guarded w true =
    then-Keeps (paste-Guarded w sync_line (record { adds = λ past s. s; same = λ past. refl }))
      (wait_shell-Guarded w)
sync_if-Guarded w false = give-Keeps Guarded false

report_back-Guarded : (synced : Bool) → Keeps Guarded (report_back synced)
unfolding report_back may_run
report_back-Guarded true =
    then-Keeps (seen (shown back none) (λ past s. s) (λ past. refl))
      (then-Keeps (seen (told back_now) (λ past s. s) (λ past. refl)) (give-Keeps Guarded true))
report_back-Guarded false =
    then-Keeps (seen (shown unsynced_back none) (λ past s. s) (λ past. refl))
      (then-Keeps (seen (told back_unset) (λ past s. s) (λ past. refl)) (give-Keeps Guarded true))

focus-Guarded : Keeps Guarded (note focused)
unfolding may_run
focus-Guarded = seen focused (λ past s. s) (λ past. refl)

end_load-Guarded : (w : World) (why : Option Str) → Keeps Guarded (end_load w why)
unfolding end_load may_run
end_load-Guarded w (some why) =
    then-Keeps (seen (shown not_back (some why)) (λ past s. s) (λ past. refl))
      (give-Keeps Guarded false)
end_load-Guarded w none = then-Keeps (seen modes_back (λ past s. s) (λ past. refl)) (
    bind-Keeps (bind-Keeps (ensure_shell-Guarded w) (sync_if-Guarded w))
      (λ synced. then-Keeps focus-Guarded (report_back-Guarded synced)))

stop_machine-Guarded : (w : World) → Keeps Guarded (stop_machine w)
unfolding stop_machine
stop_machine-Guarded w = bind-Keeps (mux-Guarded w) (λ ok. if_well-Guarded (unless_heard ok))
  where
    if_well-Guarded : (why : Option Str) → Keeps Guarded (if_well (why_of w stop) why)
    if_well-Guarded none = why_of-Guarded w stop refl
    if_well-Guarded (some why) = give-Keeps Guarded (some why)

load_if_well-Guarded : (w : World) (why : Option Str) → Keeps Guarded (if_well (load_state w) why)
load_if_well-Guarded w none = load_state-Guarded w
load_if_well-Guarded w (some why) = give-Keeps Guarded (some why)

-- `leave(resumable)`, at the value that `resumable` has by then.
leave_as_held-Guarded :
    {A : Type 0} (w : World) (f : Option Str → Step A)
    → ((r : Option Str) → Keeps Guarded (f r))
    → Keeps Guarded (page_of >>= λ p. leave w p.resumable >>= f)
leave_as_held-Guarded w f k = record {
  keeps = λ c g.
      (bind-Leads (leave-Leads w c.page.resumable) k).leads c
        (record { guarded = g; runs = g.honest });
}

load_body-Guarded : (w : World) → Keeps Guarded (load_body w)
unfolding load_body may_run
load_body-Guarded w = then-Keeps (seen (shown going_back none) (λ past s. s) (λ past. refl)) (
    then-Keeps (seen blurred (λ past s. s) (λ past. refl)) (
      bind-Keeps (bind-Keeps (stop_machine-Guarded w) (load_if_well-Guarded w))
        (λ why. leave_as_held-Guarded w _ (λ resumed. end_load-Guarded w (or_why why resumed)))))

release-Blind : Blind release
release-Blind = blind (λ p. refl)

clean_up-Guarded : (w : World) → Keeps Guarded (clean_up w is_resumable)
unfolding clean_up
clean_up-Guarded w =
    finally-Keeps (leave_as_held-Guarded w (λ _. note focused) (λ _. focus-Guarded))
      (assign-Guarded release release-Blind)

-- From a console on which the machine may run, a rollback types `cont` only where it may still run:
-- once it has typed `loadvm`, not before that has answered without an error. This holds whatever the
-- machine answers or leaves unanswered, and whichever paste throws.
pub rollback-Safe :
    (w : World) (c : Console)
    → Safe c.acts
    → may_run c.acts ≡ true
    → Safe (rollback w c).console.acts
unfolding rollback rollback_held
rollback-Safe w c s m =
    let begun = record c { page = record c.page { busy = true; resumable = true } } in
    let g : Guarded (finally (load_body w) (clean_up w is_resumable) begun).console =
      (finally-Keeps (load_body-Guarded w) (clean_up-Guarded w)).keeps begun
        (record { safe = s; honest = λ e. m }) in
    if_keep (λ (o : Outcome Bool). Safe o.console.acts) (c.page.busy || has_none c.page.saved_at)
      {x = give false c} {y = finally (load_body w) (clean_up w is_resumable) begun} s g.safe
