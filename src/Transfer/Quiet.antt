-- ===== src/Transfer/Quiet.antt =====
-- What the steps of a transfer leave alone. They throw only where a paste does.
pub mod Restore
pub mod Save
use bashtion_wasm.Base.{
  ℕ, zero, suc, ◌+◌, ◌≡◌, refl, Bool, true, false, not, ◌||◌, List, [], ◌∷◌, Option, none, some,
  if_keep, Bool-cases, inl, inr, length, Str, ◌==◌,
}
use bashtion_wasm.Steps.{StepOn, give, ◌>>=◌}
use bashtion_wasm.Steps.Triples.{Ends, Triple, bind-Triple, give-Triple}
use bashtion_wasm.Transfer.Checksum.{cksum}
use bashtion_wasm.Transfer.Payload.{b64encode, payload, block, block_count}
use bashtion_wasm.Transfer.Shell.{
  Marker, Line, t_pack, r_ready, r_go, r_blk, probe, interrupt, clear, pack, ready, check, unpack,
  go, restore,
}
use bashtion_wasm.Transfer.Console.{
  Failure, never_confirmed, damaged, progress, checking, putting_back, restoring, saving,
  collecting, failed, shown, reported, judged, sent, seen, entered, Packed, archive, pack_failed,
  Verdict, Guest, Console, Outcome, handed_out, Act, Step, note, show, assign, paste, enter, wait,
  wait_marker, ensure_shell, tidy, free_reader, recover,
}
use bashtion_wasm.Transfer.Restore.{
  confirm_block, fill_block, send_block, if_well, send_blocks, send_if_ready, send_work, set_clean,
  compare_sum, check_work, read_verdict, unpack_work, import_engaged, Imported,
}
use bashtion_wasm.Transfer.Restore.{recover_if, clean_up, release, begin, set_engaged}
use bashtion_wasm.Transfer.Save.{give_up, verify, receive, collect, export_engaged}

-- Some paste throws.
abbrev pub Threw : Guest → Type 0
Threw w = (t : ℕ) × (w.throws t ≡ true)

-- The acts that the flow of the blocks and the unpacking are not made of.
unfoldable pub plain : Act → Bool
plain (sent text) = false
plain (entered unpack) = false
plain (entered (go n)) = false
plain a = true

-- The guest's reports on what it was sent: `clean` is set right behind one.
unfoldable pub tells : Act → Bool
tells (reported size sum) = true
tells (judged ok) = true
tells a = false

-- A property that the plain acts and the time leave alone.
pub record Calm (I : Console → Type 0) : Type 0 where
  pub acted : (c : Console) (a : Act) → plain a ≡ true → I c → I (record c { acts = a ∷ c.acts })
  pub timed : (c : Console) → I c → I (record c { time = c.time + 1 })

-- And that is left alone where `clean` is set.
pub record Marked (I : Console → Type 0) : Type 0 where
  pub marked :
      (c : Console) (a : Act)
      → tells a ≡ true
      → I c
      → I (set_clean (record c { acts = a ∷ c.acts }))

tells-plain : (a : Act) → tells a ≡ true → plain a ≡ true
unfolding tells plain
tells-plain (reported size sum) h = refl
tells-plain (judged ok) h = refl
tells-plain (entered l) h = absurd (cc)
tells-plain (sent text) h = absurd (cc)
tells-plain (seen m) h = absurd (cc)
tells-plain (shown o) h = absurd (cc)
tells-plain (handed_out bytes) h = absurd (cc)

-- A property that `clean` has nothing to do with.
pub Calm-Marked :
    {I : Console → Type 0} → Calm I → ((c : Console) → I c → I (set_clean c)) → Marked I
Calm-Marked calm kept = record { marked = λ c a t i. kept _ (calm.acted c a (tells-plain a t) i) }

-- Behind a report: the property holds, with `clean` set and without.
abbrev pub Told : (Console → Type 0) → Console → Type 0
Told I c = I c × I (set_clean c)

module _ (w : Guest) where
  -- A paste sends, or throws.
  pub paste-Triple :
      (P Q X : Console → Type 0) (a : Act)
      → ((c : Console) → P c → Q (record c { acts = a ∷ c.acts; time = c.time + 1 }))
      → ((c : Console) → P c → Threw w → X (record c { time = c.time + 1 }))
      → Triple P (λ t. Q) X (paste w a)
  unfolding paste
  paste-Triple P Q X a went thrown = record {
    ends = λ c p. elim (Bool-cases (w.throws c.time)) [
      | inl threw ↦ rw threw (thrown c p (c.time, threw))
      | inr passed ↦ rw passed (went c p)
    ];
  }

module _ (w : Guest) (I : Console → Type 0) where
  -- A step behind which the property still holds, and which throws only where a paste does.
  abbrev pub Quiet : {A : Type 0} → Step A → Type 0
  Quiet m = Triple I (λ a. I) (λ c. I c × Threw w) m

  pub paste-Quiet :
      (a : Act)
      → ((c : Console) → I c → I (record c { acts = a ∷ c.acts }))
      → ((c : Console) → I c → I (record c { time = c.time + 1 }))
      → Quiet (paste w a)
  paste-Quiet a acted timed =
      paste-Triple w I I (λ c. I c × Threw w) a (λ c i. timed _ (acted c i))
        (λ c i t. (timed c i, t))

module _ (w : Guest) (I : Console → Type 0) (calm : Calm I) where
  pub note-Quiet : (a : Act) → plain a ≡ true → Quiet w I (note a)
  note-Quiet a h = record { ends = λ c i. calm.acted c a h i }

  pub give-Quiet : {A : Type 0} (a : A) → Quiet w I (give a)
  give-Quiet a = record { ends = λ c i. i }

  note-Told :
      (a : Act)
      → Marked I
      → plain a ≡ true
      → tells a ≡ true
      → Triple I (λ b. Told I) (λ c. I c × Threw w) (note a)
  note-Told a marks p t = record { ends = λ c i. (calm.acted c a p i, marks.marked c a t i) }

  pub tell-Quiet :
      {A : Type 0} {m : Step A} (a : Act)
      → Marked I
      → plain a ≡ true
      → tells a ≡ true
      → Triple (Told I) (λ b. I) (λ c. I c × Threw w) m
      → Quiet w I (note a >>= λ _. m)
  tell-Quiet a marks p t h = bind-Triple (note-Told a marks p t) (λ _. h)

  pub give-Told : {A : Type 0} (a : A) → Triple (Told I) (λ b. I) (λ c. I c × Threw w) (give a)
  give-Told a = record { ends = λ c i. i.0 }

  pub mark-Told :
      {A : Type 0} (a : A)
      → Triple (Told I) (λ b. I) (λ c. I c × Threw w) (assign set_clean >>= λ _. give a)
  mark-Told a = record { ends = λ c i. i.1 }

  pub enter-Quiet : (l : Line) → plain (entered l) ≡ true → Quiet w I (enter w l)
  enter-Quiet l h = paste-Quiet w I (entered l) (λ c i. calm.acted c (entered l) h i) calm.timed

  pub wait-Quiet : {A : Type 0} (found : ℕ → A) → Quiet w I (wait found)
  unfolding wait
  wait-Quiet found = record { ends = λ c i. calm.timed c i }

  pub wait_marker-Quiet : (m : Marker) → Quiet w I (wait_marker w m)
  unfolding wait_marker plain
  wait_marker-Quiet m = record {
    ends = λ c i. elim (Bool-cases (w.marker c.time)) [
      | inl found ↦ rw found (calm.timed _ (calm.acted c (seen m) refl i))
      | inr gave_up ↦ rw gave_up (calm.timed c i)
    ];
  }

  pub bind-Quiet :
      {A B : Type 0} {m : Step A} {f : A → Step B}
      → Quiet w I m
      → ((a : A) → Quiet w I (f a))
      → Quiet w I (m >>= f)
  bind-Quiet h k = bind-Triple h k

  pub then-Quiet :
      {A B : Type 0} {m : Step A} {n : Step B}
      → Quiet w I m
      → Quiet w I n
      → Quiet w I (m >>= λ _. n)
  then-Quiet h k = bind-Triple h (λ _. k)

  pub ensure_shell-Quiet : Quiet w I (ensure_shell w)
  unfolding ensure_shell plain
  ensure_shell-Quiet = then-Quiet (enter-Quiet probe refl) (wait-Quiet w.prompt)

  tidy-Quiet : Quiet w I (tidy w)
  unfolding tidy plain
  tidy-Quiet =
      then-Quiet (enter-Quiet clear refl) (then-Quiet (wait-Quiet w.prompt) (give-Quiet tt))

  pub free_reader-Quiet : (clean : Bool) → Quiet w I (free_reader w clean)
  unfolding free_reader plain
  free_reader-Quiet true = give-Quiet tt
  free_reader-Quiet false =
      then-Quiet (enter-Quiet interrupt refl)
        (then-Quiet (enter-Quiet interrupt refl) (then-Quiet (wait-Quiet w.prompt) (give-Quiet tt)))

  pub recover-Quiet : (clean : Bool) (files : Str) → Quiet w I (recover w clean files)
  unfolding recover plain
  recover-Quiet clean files =
      then-Quiet (free_reader-Quiet clean)
        (then-Quiet (enter-Quiet (restore files) refl) tidy-Quiet)

  recover_if-Quiet : (files : Str) (d : Console) → Quiet w I (recover_if w files d)
  unfolding recover_if
  recover_if-Quiet files d =
      if_keep (Quiet w I) d.engaged (recover-Quiet d.clean files) (give-Quiet tt)

ended_with :
    (w : Guest) (I : Console → Type 0) {A : Type 0} (v : Option A) (c : Console)
    → Ends (λ a. I) (λ c. I c × Threw w) v c
    → I c
ended_with w I none c h = h.0
ended_with w I (some a) c h = h

-- However such a step ends, the property holds.
pub Quiet-keeps :
    {A : Type 0} (w : Guest) (I : Console → Type 0) {m : Step A}
    → Quiet w I m
    → (c : Console) → I c
    → I (m c).console
Quiet-keeps w I {m} h c i = ended_with w I (m c).value (m c).console (h.ends c i)

-- Nor does the cleanup touch it.
pub clean_up-keeps :
    (w : Guest) (I : Console → Type 0)
    → Calm I
    → ((c : Console) → I c → I (release c))
    → (files : Str) (c : Console) → I c
    → I (clean_up w files c).console
unfolding clean_up
clean_up-keeps w I calm released files c i =
    released (recover_if w files c c).console
      (Quiet-keeps w I (recover_if-Quiet w I calm files c) c i)

-- A property that is kept by the whole of an operation, if it is kept by the transfer proper.
pub record Traced (I : Console → Type 0) : Type 0 where
  pub calm : Calm I
  pub marks : Marked I
  pub begun : (c : Console) → I c → I (begin c)
  pub taken : (c : Console) → I c → I (set_engaged c)
  pub released : (c : Console) → I c → I (release c)

pub take-Quiet : (w : Guest) (I : Console → Type 0) → Traced I → Quiet w I (assign set_engaged)
take-Quiet w I t = record { ends = λ c i. t.taken c i }
