-- ===== src/Machine.antt =====
-- web/serialfs.js, the checkpoint: the page's side of QEMU's monitor, and the primitives of both
-- operations. `World` is all that the page does not decide: what the engine answers within the time
-- that is waited, and whether a paste throws.
pub mod Checkpoint
pub mod Triples
pub mod Safety
pub mod Serial
pub mod Tame
pub mod Settled
use bashtion_wasm.Base.{
  ℕ, zero, suc, ◌+◌, ◌%◌, Bool, true, false, not, ◌&&◌, ◌||◌, List, [], ◌∷◌, ◌++◌, Option, none,
  some, codes, ◌==◌, Str, if◌then◌else◌,
}
use bashtion_wasm.Whitespace.{trim}
use bashtion_wasm.Steps.{OutcomeOn, StepOn}
pub use bashtion_wasm.Steps.{give, follow, ◌>>=◌, settle, finally}

-- The monitor commands that the page types.
pub data Command : Type 0 where
  stop layer savevm loadvm cont info_snapshots : Command

-- What the overlay ends with.
pub data Notice : Type 0 where
  preparing saving going_back no_prompt not_saved not_back unsynced_saved unsynced_back saved back :
      Notice

-- What the status line is set to.
pub data Status : Type 0 where
  earlier_gone reload_page saved_now saved_unset back_now back_unset : Status

-- What passes between the page and the console, the terminal and the user. `answered c why` is a
-- prompt that came behind the command `c`, with the reason where the reply was an error.
pub data Act : Type 0 where
  keys : Str → Act
  typed : Command → Act
  answered : Command → Option Str → Act
  paste_mode_off modes_back blurred focused : Act
  shown : Notice → Option Str → Act
  sync_line : Act
  told : Status → Act

-- A reply: the text of its error line, and whether it lists the tag `bashtion`.
pub record Reply : Type 0 where
  pub error : Option Str
  pub lists_tag : Bool

-- The world at each point in time. `hears` is what a wait for a prompt finds, and none where it
-- gives up; `shell` is the same for a wait on the guest's shell.
pub record World : Type 0 where
  pub throws : ℕ → Bool
  pub hears : ℕ → Option Reply
  pub shell : ℕ → Bool
  pub bracketed : ℕ → Bool
  pub clock : ℕ → ℕ

-- The variables that the operations share, and `resumable` of the rollback that is running.
pub record Page : Type 0 where
  pub busy : Bool
  pub switches : ℕ
  pub paused : Bool
  pub unanswered : Bool
  pub layered : Bool
  pub saved_at : Option ℕ
  pub resumable : Bool

-- The page, what has passed so far with the latest first, and the time.
pub record Console : Type 0 where
  pub page : Page
  pub acts : List Act
  pub time : ℕ

abbrev pub Outcome : Type 0 → Type 0
Outcome A = OutcomeOn Console A

abbrev pub Step : Type 0 → Type 0
Step A = StepOn Console A

abbrev pub note : Act → Step Unit
note a c = record { console = record c { acts = a ∷ c.acts }; value = some tt }

abbrev pub assign : (Page → Page) → Step Unit
assign f c = record { console = record c { page = f c.page }; value = some tt }

abbrev pub page_of : Step Page
page_of c = record { console = c; value = some c.page }

-- `window.__paste(t)`, which may throw before it sends.
unfoldable pub paste : World → Act → Step Unit
paste w a c =
    if w.throws c.time
    then record { console = record c { time = c.time + 1 }; value = none }
    else record { console = record c { acts = a ∷ c.acts; time = c.time + 1 }; value = some tt }

-- `waitFor` on the monitor's prompt behind the command, and on the guest's shell.
unfoldable pub wait_reply : World → Step (Option Reply)
wait_reply w c = record { console = record c { time = c.time + 1 }; value = some (w.hears c.time) }

unfoldable pub wait_shell : World → Step Bool
wait_shell w c = record { console = record c { time = c.time + 1 }; value = some (w.shell c.time) }

abbrev pub heard : Option Reply → Bool
heard none = false
heard (some r) = true

abbrev pub no_answer : Str
no_answer = codes "The machine did not answer."

-- `sentence(s)`.
unfoldable pub ends_well : Str → Bool
ends_well [] = false
ends_well (c ∷ []) = c == b'.' || c == b'!' || c == b'?'
ends_well (c ∷ d ∷ s) = ends_well (d ∷ s)

unfoldable pub sentence : Str → Str
sentence s = let t = trim s in if ends_well t then t else t ++ codes "."

-- The page is in the monitor: an odd number of switches.
abbrev pub in_monitor : Page → Bool
in_monitor p = p.switches % 2 == 1

abbrev pub type_switch : World → Step Unit
type_switch w = paste w (keys (0x01 ∷ [])) >>= λ _. paste w (keys (0x00 ∷ [])) >>= λ _.
    paste w (keys (0x01 ∷ [])) >>= λ _.
    paste w (keys (codes "c")) >>= λ _. assign (λ p. record p { switches = p.switches + 1 })

-- `mux()`.
unfoldable pub end_bracketed : World → Step Unit
end_bracketed w c = if w.bracketed c.time then note paste_mode_off c else give tt c

unfoldable pub await_monitor : World → Page → Step Bool
await_monitor w p = if in_monitor p then (wait_reply w >>= λ r. give (heard r)) else give true

unfoldable pub mux : World → Step Bool
mux w = end_bracketed w >>= λ _. type_switch w >>= λ _. page_of >>= await_monitor w

-- What `run` resolves to: why it failed, and whether the reply lists the tag.
pub record Ran : Type 0 where
  pub why : Option Str
  pub lists_tag : Bool

abbrev pub is_stop : Command → Bool
is_stop stop = true
is_stop _ = false

-- The flags of a command that was carried out.
abbrev pub carried_out : Command → Page → Page
carried_out stop p = record p { paused = true; unanswered = false }
carried_out cont p = record p { paused = false }
carried_out _ p = p

-- The error line of a reply, which is not looked for in the reply to `stop`.
abbrev pub error_of : Command → Reply → Option Str
error_of stop r = none
error_of c r = r.error

unfoldable pub judge : Command → Reply → Option Str → Step Ran
judge k r (some why) = note (answered k (some why)) >>= λ _.
    give (record { why = some (sentence why); lists_tag = r.lists_tag })
judge k r none = note (answered k none) >>= λ _.
    assign (carried_out k) >>= λ _. give (record { why = none; lists_tag = r.lists_tag })

unfoldable pub read_reply : Command → Option Reply → Step Ran
read_reply k none = give (record { why = some no_answer; lists_tag = false })
read_reply k (some r) = judge k r (error_of k r)

-- `run(cmd)`.
unfoldable pub run : World → Command → Step Ran
run w k = assign (λ p. if is_stop k then record p { unanswered = true } else p) >>= λ _.
    paste w (typed k) >>= λ _. wait_reply w >>= read_reply k

abbrev pub why_of : World → Command → Step (Option Str)
why_of w k = run w k >>= λ r. give r.why

-- `leave(resume)`.
unfoldable pub resume_if : World → Bool → Step (Option Str)
resume_if w true = why_of w cont
resume_if w false = give none

unfoldable pub leave_monitor : World → Bool → Page → Step (Option Str)
leave_monitor w resume p = assign (λ p. record p { unanswered = false }) >>= λ _.
    resume_if w (resume && (p.unanswered || p.paused)) >>= λ why. mux w >>= λ _. give why

unfoldable pub leave_from : World → Bool → Page → Step (Option Str)
leave_from w resume p = if in_monitor p then leave_monitor w resume p else give none

unfoldable pub leave : World → Bool → Step (Option Str)
leave w resume = page_of >>= leave_from w resume
