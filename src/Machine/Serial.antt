-- ===== src/Machine/Serial.antt =====
-- Whatever happens to an operation, it gives the console back.
use bashtion_wasm.Base.{
  if_keep, ℕ, ◌+◌, ◌%◌, ◌≡◌, refl, sym, ap, ◌∙◌, Bool, true, false, ◌&&◌, ◌||◌, ◌==◌, [], ◌∷◌,
  Option, none, some, Bool-cases, inl, inr, arith, Str, codes, if◌then◌else◌,
}
use bashtion_wasm.Machine.{
  Command, stop, layer, savevm, loadvm, cont, info_snapshots, Act, keys, typed, answered, Reply,
  World, Page, Console, Outcome, give, note, assign, page_of, paste, wait_reply, heard, in_monitor,
  type_switch, end_bracketed, await_monitor, mux, carried_out, is_stop, error_of, judge, read_reply,
  run, resume_if, leave_monitor, leave_from, leave, focused, paste_mode_off,
}
use bashtion_wasm.Machine.Triples.{
  Keeps, bind-Keeps, then-Keeps, give-Keeps, Returned, Gets, bind-Gets, Gets-bind,
}

-- So many switches were sent.
abbrev Sent : ℕ → Console → Type 0
Sent n c = c.page.switches ≡ n

paste-Sent : (n : ℕ) (w : World) (a : Act) → Keeps (Sent n) (paste w a)
unfolding paste
paste-Sent n w a = record {
  keeps = λ c h. if_keep (λ (o : Outcome Unit). Sent n o.console) (w.throws c.time) h h;
}

wait_reply-Sent : (n : ℕ) (w : World) → Keeps (Sent n) (wait_reply w)
unfolding wait_reply
wait_reply-Sent n w = record { keeps = λ c h. h }

note-Sent : (n : ℕ) (a : Act) → Keeps (Sent n) (note a)
note-Sent n a = record { keeps = λ c h. h }

assign-Sent :
    (n : ℕ) (f : Page → Page)
    → ((p : Page) → (f p).switches ≡ p.switches)
    → Keeps (Sent n) (assign f)
assign-Sent n f e = record { keeps = λ c h. e c.page ∙ h }

page_of-Sent : (n : ℕ) → Keeps (Sent n) page_of
page_of-Sent n = record { keeps = λ c h. h }

carried_out-switches : (k : Command) (p : Page) → (carried_out k p).switches ≡ p.switches
carried_out-switches stop p = refl
carried_out-switches cont p = refl
carried_out-switches layer p = refl
carried_out-switches savevm p = refl
carried_out-switches loadvm p = refl
carried_out-switches info_snapshots p = refl

judge-Sent : (n : ℕ) (k : Command) (r : Reply) (why : Option Str) → Keeps (Sent n) (judge k r why)
unfolding judge
judge-Sent n k r (some why) =
    then-Keeps (note-Sent n (answered k (some why))) (give-Keeps (Sent n) _)
judge-Sent n k r none =
    then-Keeps (note-Sent n (answered k none))
      (then-Keeps (assign-Sent n (carried_out k) (carried_out-switches k)) (give-Keeps (Sent n) _))

read_reply-Sent : (n : ℕ) (k : Command) (r : Option Reply) → Keeps (Sent n) (read_reply k r)
unfolding read_reply
read_reply-Sent n k none = give-Keeps (Sent n) _
read_reply-Sent n k (some r) = judge-Sent n k r (error_of k r)

sent_flag-switches :
    (k : Command) (p : Page)
    → (if is_stop k then record p { unanswered = true } else p).switches ≡ p.switches
sent_flag-switches k p = if_keep (λ (q : Page). q.switches ≡ p.switches) (is_stop k) refl refl

run-Sent : (n : ℕ) (w : World) (k : Command) → Keeps (Sent n) (run w k)
unfolding run
run-Sent n w k =
    then-Keeps (assign-Sent n _ (sent_flag-switches k)) (
      then-Keeps (paste-Sent n w (typed k))
        (bind-Keeps (wait_reply-Sent n w) (read_reply-Sent n k)))

resume_if-Sent : (n : ℕ) (w : World) (b : Bool) → Keeps (Sent n) (resume_if w b)
unfolding resume_if
resume_if-Sent n w true = bind-Keeps (run-Sent n w cont) (λ r. give-Keeps (Sent n) r.why)
resume_if-Sent n w false = give-Keeps (Sent n) none

end_bracketed-Sent : (n : ℕ) (w : World) → Keeps (Sent n) (end_bracketed w)
unfolding end_bracketed
end_bracketed-Sent n w = record {
  keeps = λ c h.
      if_keep (λ (o : Outcome Unit). Sent n o.console) (w.bracketed c.time)
        {x = note paste_mode_off c} {y = give tt c} h h;
}

await_monitor-Sent : (n : ℕ) (w : World) (p : Page) → Keeps (Sent n) (await_monitor w p)
unfolding await_monitor
await_monitor-Sent n w p =
    if_keep (Keeps (Sent n)) (in_monitor p)
      (bind-Keeps (wait_reply-Sent n w) (λ r. give-Keeps (Sent n) (heard r)))
      (give-Keeps (Sent n) true)

type_switch-Gets : (n : ℕ) (w : World) → Gets (Sent n) (Sent (n + 1)) (type_switch w)
type_switch-Gets n w = bind-Gets (paste-Sent n w (keys (0x01 ∷ []))) (λ _.
    bind-Gets (paste-Sent n w (keys (0x00 ∷ []))) (λ _.
      bind-Gets (paste-Sent n w (keys (0x01 ∷ []))) (λ _.
        bind-Gets (paste-Sent n w (keys (codes "c")))
          (λ _. record { gets = λ c h. ap (λ k. k + 1) h }))))

mux-Gets : (n : ℕ) (w : World) → Gets (Sent n) (Sent (n + 1)) (mux w)
unfolding mux
mux-Gets n w = bind-Gets (end_bracketed-Sent n w) (λ _.
    Gets-bind (type_switch-Gets n w)
      (λ _. bind-Keeps (page_of-Sent (n + 1)) (await_monitor-Sent (n + 1) w)))

leave_monitor-Gets :
    (n : ℕ) (w : World) (resume : Bool) (p : Page)
    → Gets (Sent n) (Sent (n + 1)) (leave_monitor w resume p)
unfolding leave_monitor
leave_monitor-Gets n w resume p =
    bind-Gets (assign-Sent n (λ p. record p { unanswered = false }) (λ p. refl)) (λ _.
      bind-Gets (resume_if-Sent n w (resume && (p.unanswered || p.paused)))
        (λ why. Gets-bind (mux-Gets n w) (λ _. give-Keeps (Sent (n + 1)) why)))

-- The mux is on the serial side.
abbrev pub OnSerial : Console → Type 0
OnSerial c = in_monitor c.page ≡ false

abbrev pub Always : Console → Type 0
Always c = Unit

even_next : (n : ℕ) → (n % 2 == 1) ≡ true → ((n + 1) % 2 == 1) ≡ false
even_next n e = ground arith

Returned-map :
    {A : Type 0} (P Q : Console → Type 0)
    → ((c : Console) → P c → Q c)
    → (v : Option A) (c : Console) → Returned P v c
    → Returned Q v c
Returned-map P Q f none c h = tt
Returned-map P Q f (some a) c h = f c h

leave_from-Gets :
    (w : World) (resume : Bool) (p : Page) (c : Console)
    → p.switches ≡ c.page.switches
    → Returned OnSerial (leave_from w resume p c).value (leave_from w resume p c).console
unfolding leave_from
leave_from-Gets w resume p c e = elim (Bool-cases (in_monitor p)) [
  | inl inside ↦ rw inside (
      Returned-map (Sent (p.switches + 1)) OnSerial
        (λ d h. ap (λ k. k % 2 == 1) h ∙ even_next p.switches inside)
        (leave_monitor w resume p c).value _
        ((leave_monitor-Gets p.switches w resume p).gets c (sym e)))
  | inr outside ↦ rw outside (ap (λ k. k % 2 == 1) (sym e) ∙ outside)
]

pub leave-Gets : (w : World) (resume : Bool) → Gets Always OnSerial (leave w resume)
unfolding leave
leave-Gets w resume = record { gets = λ c h. leave_from-Gets w resume c.page c refl }

assign-OnSerial :
    (f : Page → Page) → ((p : Page) → (f p).switches ≡ p.switches) → Keeps OnSerial (assign f)
assign-OnSerial f e = record { keeps = λ c h. ap (λ k. k % 2 == 1) (e c.page) ∙ h }

pub focus-OnSerial : Keeps OnSerial (note focused)
focus-OnSerial = record { keeps = λ c h. h }
