-- ===== src/Machine/Safety.antt =====
-- What a step must keep for the machine never to be set running on a load that did not succeed,
-- and that switching and the commands keep it.
pub mod Leave
pub mod Rollback
use bashtion_wasm.Base.{
  if_keep, ℕ, ◌+◌, ◌≡◌, refl, sym, ◌∙◌, codes, Bool, true, false, not, ◌&&◌, ◌||◌, List, [], ◌∷◌,
  Option, none, some, Option-cases, Bool-cases, inl, inr, arith, Str, if◌then◌else◌,
}
use bashtion_wasm.Machine.{
  Command, stop, layer, savevm, loadvm, cont, info_snapshots, Act, keys, typed, answered,
  paste_mode_off, modes_back, blurred, focused, shown, sync_line, told, earlier_gone, Reply, World,
  Page, Console, Ran, Outcome, Step, follow, give, ◌>>=◌, finally, note, assign, page_of, paste,
  wait_reply, wait_shell, heard, in_monitor, type_switch, end_bracketed, await_monitor, mux,
  carried_out, is_stop, error_of, judge, read_reply, run, why_of, resume_if, leave_monitor,
  leave_from, leave,
}
use bashtion_wasm.Machine.Checkpoint.{
  ensure_shell, resync, if_well, unless_heard, or_why, stop_machine, after_load, load_state,
  sync_if, report_back, end_load, is_resumable, clean_up, load_body, rollback_held, has_none,
  rollback,
}
use bashtion_wasm.Machine.Triples.{
  Leads, bind-Leads, then-Keeps, Keeps, bind-Keeps, give-Keeps, finally-Keeps,
}

-- The machine may run: no `loadvm` was typed, or the last one has answered without an error.
unfoldable pub may_run : List Act → Bool
may_run [] = true
may_run (answered loadvm none ∷ past) = true
may_run (typed loadvm ∷ past) = false
may_run (_ ∷ past) = may_run past

-- Every `cont` was typed where the machine might run.
abbrev pub Safe : List Act → Type 0
Safe [] = Unit
Safe (typed cont ∷ past) = (may_run past ≡ true) × Safe past
Safe (_ ∷ past) = Safe past

-- What a rollback keeps: while it holds the machine resumable, the machine may run.
pub record Guarded (c : Console) : Type 0 where
  pub safe : Safe c.acts
  pub honest : c.page.resumable ≡ true → may_run c.acts ≡ true

-- An act that the guard does not see.
pub record Inert (a : Act) : Type 0 where
  pub adds : (past : List Act) → Safe past → Safe (a ∷ past)
  pub same : (past : List Act) → may_run (a ∷ past) ≡ may_run past

-- A change of the page that leaves what the guard reads.
pub record Blind (f : Page → Page) : Type 0 where
  pub leaves : (p : Page) → (f p).resumable ≡ p.resumable

pub blind : {f : Page → Page} → ((p : Page) → (f p).resumable ≡ p.resumable) → Blind f
blind h = record { leaves = h }

pub with_act :
    (a : Act) (c : Console) (t : ℕ)
    → Inert a
    → Guarded c
    → Guarded (record c { acts = a ∷ c.acts; time = t })
with_act a c t i g = record {
  safe = i.adds c.acts g.safe;
  honest = λ p. i.same c.acts ∙ g.honest p;
}

pub note-Guarded : (a : Act) → Inert a → Keeps Guarded (note a)
note-Guarded a i = record { keeps = λ c g. with_act a c c.time i g }

pub paste-Guarded : (w : World) (a : Act) → Inert a → Keeps Guarded (paste w a)
unfolding paste
paste-Guarded w a i = record {
  keeps = λ c g.
      if_keep (λ (o : Outcome Unit). Guarded o.console) (w.throws c.time)
        (record { safe = g.safe; honest = g.honest }) (with_act a c (c.time + 1) i g);
}

pub assign-Guarded : (f : Page → Page) → Blind f → Keeps Guarded (assign f)
assign-Guarded f b = record {
  keeps = λ c g. record { safe = g.safe; honest = λ p. g.honest (sym (b.leaves c.page) ∙ p) };
}

pub page_of-Guarded : Keeps Guarded page_of
page_of-Guarded = record { keeps = λ c g. g }

pub wait_reply-Guarded : (w : World) → Keeps Guarded (wait_reply w)
unfolding wait_reply
wait_reply-Guarded w = record { keeps = λ c g. record { safe = g.safe; honest = g.honest } }

pub wait_shell-Guarded : (w : World) → Keeps Guarded (wait_shell w)
unfolding wait_shell
wait_shell-Guarded w = record { keeps = λ c g. record { safe = g.safe; honest = g.honest } }

pub keys-Inert : (t : Str) → Inert (keys t)
unfolding may_run
keys-Inert t = record { adds = λ past s. s; same = λ past. refl }

pub type-Guarded : (w : World) (t : Str) → Keeps Guarded (paste w (keys t))
type-Guarded w t = paste-Guarded w (keys t) (keys-Inert t)

pub end_bracketed-Guarded : (w : World) → Keeps Guarded (end_bracketed w)
unfolding end_bracketed may_run
end_bracketed-Guarded w = record {
  keeps = λ c g.
      if_keep (λ (o : Outcome Unit). Guarded o.console) (w.bracketed c.time)
        {x = note paste_mode_off c} {y = give tt c}
        ((note-Guarded paste_mode_off (record { adds = λ past s. s; same = λ past. refl })).keeps c
          g)
        g;
}

pub switch-Blind : Blind (λ p. record p { switches = p.switches + 1 })
switch-Blind = blind (λ p. refl)

pub type_switch-Guarded : (w : World) → Keeps Guarded (type_switch w)
type_switch-Guarded w = then-Keeps (type-Guarded w (0x01 ∷ [])) (
    then-Keeps (type-Guarded w (0x00 ∷ [])) (
      then-Keeps (type-Guarded w (0x01 ∷ []))
        (then-Keeps (type-Guarded w (codes "c")) (assign-Guarded _ switch-Blind))))

pub await_monitor-Guarded : (w : World) (p : Page) → Keeps Guarded (await_monitor w p)
unfolding await_monitor
await_monitor-Guarded w p =
    if_keep (Keeps Guarded) (in_monitor p)
      (bind-Keeps (wait_reply-Guarded w) (λ r. give-Keeps Guarded (heard r)))
      (give-Keeps Guarded true)

pub mux-Guarded : (w : World) → Keeps Guarded (mux w)
unfolding mux
mux-Guarded w =
    then-Keeps (end_bracketed-Guarded w)
      (then-Keeps (type_switch-Guarded w) (bind-Keeps page_of-Guarded (await_monitor-Guarded w)))

-- The commands that neither load nor resume.
abbrev pub quiet : Command → Bool
quiet loadvm = false
quiet cont = false
quiet _ = true

pub typed-Inert : (k : Command) → quiet k ≡ true → Inert (typed k)
unfolding may_run
typed-Inert stop q = record { adds = λ past s. s; same = λ past. refl }
typed-Inert layer q = record { adds = λ past s. s; same = λ past. refl }
typed-Inert savevm q = record { adds = λ past s. s; same = λ past. refl }
typed-Inert info_snapshots q = record { adds = λ past s. s; same = λ past. refl }
typed-Inert loadvm q = absurd (cc)
typed-Inert cont q = absurd (cc)

-- An answer never forbids.
pub answered_lets :
    (k : Command) (why : Option Str) (past : List Act)
    → may_run past ≡ true
    → may_run (answered k why ∷ past) ≡ true
unfolding may_run
answered_lets loadvm none past m = refl
answered_lets loadvm (some why) past m = m
answered_lets stop why past m = m
answered_lets layer why past m = m
answered_lets savevm why past m = m
answered_lets cont why past m = m
answered_lets info_snapshots why past m = m

pub note_answered-Guarded : (k : Command) (why : Option Str) → Keeps Guarded (note (answered k why))
note_answered-Guarded k why = record {
  keeps = λ c g. record { safe = g.safe; honest = λ p. answered_lets k why c.acts (g.honest p) };
}

pub carried_out-Blind : (k : Command) → Blind (carried_out k)
carried_out-Blind stop = blind (λ p. refl)
carried_out-Blind cont = blind (λ p. refl)
carried_out-Blind layer = blind (λ p. refl)
carried_out-Blind savevm = blind (λ p. refl)
carried_out-Blind loadvm = blind (λ p. refl)
carried_out-Blind info_snapshots = blind (λ p. refl)

pub judge-Guarded : (k : Command) (r : Reply) (why : Option Str) → Keeps Guarded (judge k r why)
unfolding judge
judge-Guarded k r (some why) =
    then-Keeps (note_answered-Guarded k (some why)) (give-Keeps Guarded _)
judge-Guarded k r none =
    then-Keeps (note_answered-Guarded k none)
      (then-Keeps (assign-Guarded (carried_out k) (carried_out-Blind k)) (give-Keeps Guarded _))

pub read_reply-Guarded : (k : Command) (r : Option Reply) → Keeps Guarded (read_reply k r)
unfolding read_reply
read_reply-Guarded k none = give-Keeps Guarded _
read_reply-Guarded k (some r) = judge-Guarded k r (error_of k r)

pub sent-Blind :
    (k : Command) → Blind (λ p. if is_stop k then record p { unanswered = true } else p)
sent-Blind k = blind (λ p. if_keep (λ (q : Page). q.resumable ≡ p.resumable) (is_stop k) refl refl)

pub run-Guarded : (w : World) (k : Command) → quiet k ≡ true → Keeps Guarded (run w k)
unfolding run
run-Guarded w k q = then-Keeps (assign-Guarded _ (sent-Blind k)) (
    then-Keeps (paste-Guarded w (typed k) (typed-Inert k q))
      (bind-Keeps (wait_reply-Guarded w) (read_reply-Guarded k)))

pub why_of-Guarded : (w : World) (k : Command) → quiet k ≡ true → Keeps Guarded (why_of w k)
why_of-Guarded w k q = bind-Keeps (run-Guarded w k q) (λ r. give-Keeps Guarded r.why)
