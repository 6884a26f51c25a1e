-- ===== src/Transfer/Console.antt =====
-- web/serialfs.js: the console as a transfer uses it. `Guest` is all that the page does not decide: what
-- the waits find within their time, whether a paste throws, the browser's storage and its base64. The
-- pauses of `sleep` are left out.
use bashtion_wasm.Base.{
  ℕ, ◌+◌, Bool, true, false, List, ◌∷◌, Option, none, some, Str, if◌then◌else◌,
}
use bashtion_wasm.Steps.{OutcomeOn, StepOn, give, ◌>>=◌}
use bashtion_wasm.Transfer.Shell.{Marker, Line, probe, interrupt, clear, restore}

-- Why a transfer failed. The percentage is of the blocks that the guest has.
pub data Failure : Type 0 where
  no_prompt command_not_taken went_quiet garbled never_answered never_confirmed never_finished :
      Failure
  not_collected refused : Str → Failure
  stopped_at stalled_at : ℕ → Failure
  damaged : ℕ → ℕ → Failure

-- The overlay: `progress n total` is a bar.
pub data Overlay : Type 0 where
  preparing saving collecting restoring checking putting_back : Overlay
  progress : ℕ → ℕ → Overlay
  saved_here downloaded nothing_saved work_restored home_restored : Overlay
  failed : Failure → Overlay

-- What passes between the page, the guest and the user. `reported` and `judged` are the guest's
-- reports on what it was sent.
pub data Act : Type 0 where
  entered : Line → Act
  sent : Str → Act
  seen : Marker → Act
  reported : ℕ → ℕ → Act
  judged : Bool → Act
  shown : Overlay → Act
  handed_out : List ℕ → Act

-- What `exportWork` waits for: an archive, or the reason that there is none.
pub data Packed : Type 0 where
  archive : ℕ → ℕ → Str → Packed
  pack_failed : Str → Packed

pub record Verdict : Type 0 where
  pub is_ok : Bool
  pub said : Str

-- Each wait at its time, `none` and `false` where it gives up.
pub record Guest : Type 0 where
  pub throws : ℕ → Bool
  pub prompt : ℕ → Bool
  pub marker : ℕ → Bool
  pub packed : ℕ → Option Packed
  pub summed : ℕ → Option (ℕ × ℕ)
  pub unpacked : ℕ → Option Verdict
  pub storage_throws : ℕ → Bool
  pub read_throws : ℕ → Bool
  pub btoa : List ℕ → Str
  pub atob : Str → Option (List ℕ)

-- `busy`, the two flags of the transfer that is running, the browser's copy as opfsRead finds it, and the
-- trace, the latest first. `stored` is `none` where there is no file.
pub record Console : Type 0 where
  pub busy : Bool
  pub engaged : Bool
  pub clean : Bool
  pub stored : Option (List ℕ)
  pub acts : List Act
  pub time : ℕ

abbrev pub Outcome : Type 0 → Type 0
Outcome A = OutcomeOn Console A

abbrev pub Step : Type 0 → Type 0
Step A = StepOn Console A

abbrev pub note : Act → Step Unit
note a c = record { console = record c { acts = a ∷ c.acts }; value = some tt }

abbrev pub show : Overlay → Step Unit
show o = note (shown o)

abbrev pub assign : (Console → Console) → Step Unit
assign f c = record { console = f c; value = some tt }

abbrev pub console_of : Step Console
console_of c = record { console = c; value = some c }

-- `window.__paste(t)`, which may throw before it sends.
unfoldable pub paste : Guest → Act → Step Unit
paste w a c =
    if w.throws c.time
    then record { console = record c { time = c.time + 1 }; value = none }
    else record { console = record c { acts = a ∷ c.acts; time = c.time + 1 }; value = some tt }

abbrev pub enter : Guest → Line → Step Unit
enter w l = paste w (entered l)

-- A wait, `waitFor`, with what it finds.
unfoldable pub wait : {A : Type 0} → (ℕ → A) → Step A
wait found c = record { console = record c { time = c.time + 1 }; value = some (found c.time) }

unfoldable pub wait_marker : Guest → Marker → Step Bool
wait_marker w m c =
    if w.marker c.time
    then record {
      console = record c { acts = seen m ∷ c.acts; time = c.time + 1 };
      value = some true;
    }
    else record { console = record c { time = c.time + 1 }; value = some false }

-- ensureShell.
unfoldable pub ensure_shell : Guest → Step Bool
ensure_shell w = enter w probe >>= λ _. wait w.prompt

-- tidy.
unfoldable pub tidy : Guest → Step Unit
tidy w = enter w clear >>= λ _. wait w.prompt >>= λ _. give tt

unfoldable pub free_reader : Guest → Bool → Step Unit
free_reader w true = give tt
free_reader w false =
    enter w interrupt >>= λ _. enter w interrupt >>= λ _. wait w.prompt >>= λ _. give tt

-- recover.
unfoldable pub recover : Guest → Bool → Str → Step Unit
recover w clean files = free_reader w clean >>= λ _. enter w (restore files) >>= λ _. tidy w
