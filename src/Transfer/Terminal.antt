-- ===== src/Transfer/Terminal.antt =====
-- The guest's terminal, as the comment on recover in web/serialfs.js tells it: what is typed while a
-- `head -c` runs is taken as the archive's, whatever it says, and Ctrl-C ends that reader.
use bashtion_wasm.Base.{
  ◌≡◌, refl, Bool, true, false, List, [], ◌∷◌, codes, Str, str_eq, ◌==◌, ◌&&◌, if_keep,
  if◌then◌else◌,
}
use bashtion_wasm.Transfer.Shell.{
  r_blk, probe, interrupt, clear, pack, ready, check, unpack, go, restore, line_text,
}
use bashtion_wasm.Transfer.Console.{
  Act, entered, sent, seen, reported, judged, shown, handed_out, Console,
}
use bashtion_wasm.Transfer.Quiet.{plain, tells}

unfoldable pub starts : Str → Str → Bool
starts [] s = true
starts (p ∷ ps) [] = false
starts (p ∷ ps) (c ∷ s) = let rest = starts ps s in p == c && rest

-- Whether it echoes, and whether a reader may have it.
pub record Terminal : Type 0 where
  pub echoes : Bool
  pub reading : Bool

abbrev pub turns_off : Str
turns_off = codes "stty -echo; "

abbrev pub turns_on : Str
turns_on = codes "stty echo; "

-- The shell's line that ends in a reader.
abbrev pub starts_reader : Str
starts_reader = codes "printf '\\nBW''R-GO\\n'; head -c "

-- What typing a text does. The `stty echo` at the end of two of the lines is not counted on: the line may
-- be interrupted before it.
unfoldable pub typed : Str → Terminal → Terminal
typed text k =
    if str_eq text (0x03 ∷ [])
    then record k { reading = false }
    else if k.reading
    then k
    else record {
      echoes =
          if starts turns_off text then false else if starts turns_on text then true else k.echoes;
      reading = starts starts_reader text;
    }

-- The terminal behind a trace. The word behind a block, and a report that the shell prints, show that no
-- reader runs any more.
unfoldable pub terminal : List Act → Terminal
terminal [] = record { echoes = true; reading = false }
terminal (entered l ∷ past) = typed (line_text l) (terminal past)
terminal (seen r_blk ∷ past) = record (terminal past) { reading = false }
terminal (reported size sum ∷ past) = record (terminal past) { reading = false }
terminal (judged ok ∷ past) = record (terminal past) { reading = false }
terminal (a ∷ past) = terminal past

-- No reader has the terminal.
abbrev pub Free : Console → Type 0
Free c = (terminal c.acts).reading ≡ false

-- The terminal as the user wants it: it echoes, and no reader takes what is typed.
pub record Echoes (c : Console) : Type 0 where
  pub on : (terminal c.acts).echoes ≡ true
  pub free : Free c

typed_free :
    (text : Str) (k : Terminal)
    → k.reading ≡ false
    → starts starts_reader text ≡ false
    → (typed text k).reading ≡ false
unfolding typed
typed_free text k free other =
    if_keep (λ (t : Terminal). t.reading ≡ false) (str_eq text (0x03 ∷ [])) refl
      (if_keep (λ (t : Terminal). t.reading ≡ false) k.reading free other)

-- Ctrl-C frees the terminal, whoever has it.
pub interrupt-Free : (past : List Act) → (terminal (entered interrupt ∷ past)).reading ≡ false
unfolding terminal typed str_eq line_text
interrupt-Free past = refl

-- The acts that start no reader.
pub plain-Free :
    (a : Act) (past : List Act)
    → plain a ≡ true
    → (terminal past).reading ≡ false
    → (terminal (a ∷ past)).reading ≡ false
unfolding terminal starts line_text plain
plain-Free (entered probe) past h free = typed_free _ (terminal past) free refl
plain-Free (entered interrupt) past h free = typed_free _ (terminal past) free refl
plain-Free (entered clear) past h free = typed_free _ (terminal past) free refl
plain-Free (entered pack) past h free = typed_free _ (terminal past) free refl
plain-Free (entered ready) past h free = typed_free _ (terminal past) free refl
plain-Free (entered check) past h free = typed_free _ (terminal past) free refl
plain-Free (entered unpack) past h free = absurd (cc)
plain-Free (entered (go n)) past h free = absurd (cc)
plain-Free (entered (restore files)) past h free = typed_free _ (terminal past) free refl
plain-Free (sent text) past h free = absurd (cc)
plain-Free (seen r_blk) past h free = refl
plain-Free (seen m) past h free = free
plain-Free (reported size sum) past h free = refl
plain-Free (judged ok) past h free = refl
plain-Free (shown o) past h free = free
plain-Free (handed_out bytes) past h free = free

pub tells-Free :
    (a : Act) (past : List Act) → tells a ≡ true → (terminal (a ∷ past)).reading ≡ false
unfolding terminal tells
tells-Free (reported size sum) past h = refl
tells-Free (judged ok) past h = refl
tells-Free (entered l) past h = absurd (cc)
tells-Free (sent text) past h = absurd (cc)
tells-Free (seen m) past h = absurd (cc)
tells-Free (shown o) past h = absurd (cc)
tells-Free (handed_out bytes) past h = absurd (cc)

pub unpack-Free :
    (past : List Act)
    → (terminal past).reading ≡ false
    → (terminal (entered unpack ∷ past)).reading ≡ false
unfolding terminal starts line_text
unpack-Free past free = typed_free _ (terminal past) free refl

-- The line that is typed to set the echo does.
pub restore-on :
    (files : Str) (past : List Act)
    → (terminal past).reading ≡ false
    → (terminal (entered (restore files) ∷ past)).echoes ≡ true
unfolding terminal typed starts line_text str_eq
restore-on files past free = rw free refl

-- The other lines that are typed at a prompt leave it.
pub probe-on :
    (past : List Act)
    → (terminal past).reading ≡ false
    → (terminal (entered probe ∷ past)).echoes ≡ (terminal past).echoes
unfolding terminal typed starts line_text str_eq
probe-on past free = rw free refl

pub clear-on :
    (past : List Act)
    → (terminal past).reading ≡ false
    → (terminal (entered clear ∷ past)).echoes ≡ (terminal past).echoes
unfolding terminal typed starts line_text str_eq
clear-on past free = rw free refl
