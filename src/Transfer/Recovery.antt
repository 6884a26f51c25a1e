-- ===== src/Transfer/Recovery.antt =====
-- recover of web/serialfs.js: how the terminal is handed back, whatever has become of a transfer.
use bashtion_wasm.Base.{
  ℕ, ◌+◌, ◌≡◌, refl, ap, ◌∙◌, Bool, true, false, ◌∷◌, Option, none, some, if_known, Str,
}
use bashtion_wasm.Steps.{give, ◌>>=◌}
use bashtion_wasm.Steps.Triples.{Ends, Triple, bind-Triple, finally-Triple, exit-Triple}
use bashtion_wasm.Transfer.Shell.{probe, interrupt, clear, restore}
use bashtion_wasm.Transfer.Console.{
  Act, entered, Guest, Console, Step, assign, console_of, paste, wait, ensure_shell, tidy,
  free_reader, recover,
}
use bashtion_wasm.Transfer.Restore.{release, recover_if, clean_up}
use bashtion_wasm.Transfer.Terminal.{
  terminal, Free, Echoes, plain-Free, tells-Free, interrupt-Free, restore-on, probe-on, clear-on,
}
use bashtion_wasm.Transfer.Quiet.{Threw, Calm, Marked, plain, tells, Quiet, paste-Triple}

abbrev pub Engaged : Console → Type 0
Engaged c = c.engaged ≡ true

-- A transfer that has the console and still counts on a reader.
abbrev pub Unclean : Console → Type 0
Unclean c = Engaged c × (c.clean ≡ false)

-- `clean` is set only where no reader has the terminal.
abbrev pub Tracked : Console → Type 0
Tracked c = c.clean ≡ true → Free c

abbrev pub Taken : Console → Type 0
Taken c = Engaged c × Tracked c

-- The terminal, before a transfer takes the console.
abbrev pub Aside : Console → Type 0
Aside c = Echoes c × (c.clean ≡ false)

-- A transfer that has not taken the console has left the terminal as it was.
abbrev pub Held : Console → Type 0
Held c = (c.engaged ≡ false → Echoes c) × Tracked c

pub Unclean-Calm : Calm Unclean
Unclean-Calm = record { acted = λ c a h i. i; timed = λ c i. i }

pub Taken-Calm : Calm Taken
Taken-Calm = record {
  acted = λ c a h i. (i.0, λ clean. plain-Free a c.acts h (i.1 clean));
  timed = λ c i. i;
}

pub Taken-Marked : Marked Taken
unfolding terminal tells
Taken-Marked = record { marked = λ c a t i. (i.0, λ clean. tells-Free a c.acts t) }

pub Unclean-Taken : (c : Console) → Unclean c → Taken c
Unclean-Taken c u = (u.0, λ clean. absurd (cc (clean, u.1)))

-- A step that leaves the terminal as it is.
module _ (w : Guest) where
  abbrev pub Leaves : {A : Type 0} → (Console → Type 0) → (Console → Type 0) → Step A → Type 0
  Leaves P Q m = Triple P (λ a. Q) (λ c. Threw w) m

  paste-Leaves :
      (P Q : Console → Type 0) (a : Act)
      → ((c : Console) → P c → Q (record c { acts = a ∷ c.acts; time = c.time + 1 }))
      → Leaves P Q (paste w a)
  paste-Leaves P Q a h = paste-Triple w P Q (λ c. Threw w) a h (λ c p t. t)

  pub give-Leaves :
      {A : Type 0} (P Q : Console → Type 0) (a : A)
      → ((c : Console) → P c → Q c)
      → Leaves P Q (give a)
  give-Leaves P Q a h = record { ends = λ c p. h c p }

  wait-Leaves :
      {A : Type 0} (P : Console → Type 0) (found : ℕ → A)
      → ((c : Console) → P c → P (record c { time = c.time + 1 }))
      → Leaves P P (wait found)
  unfolding wait
  wait-Leaves P found h = record { ends = λ c p. h c p }

  probe-Echoes :
      (c : Console)
      → Echoes c
      → Echoes (record c { acts = entered probe ∷ c.acts; time = c.time + 1 })
  unfolding plain
  probe-Echoes c e = record {
    on = probe-on c.acts e.free ∙ e.on;
    free = plain-Free (entered probe) c.acts refl e.free;
  }

  clear-Echoes :
      (c : Console)
      → Echoes c
      → Echoes (record c { acts = entered clear ∷ c.acts; time = c.time + 1 })
  unfolding plain
  clear-Echoes c e = record {
    on = clear-on c.acts e.free ∙ e.on;
    free = plain-Free (entered clear) c.acts refl e.free;
  }

  later-Echoes : (c : Console) → Echoes c → Echoes (record c { time = c.time + 1 })
  later-Echoes c e = record { on = e.on; free = e.free }

  pub ensure_shell-Aside : Leaves Aside Aside (ensure_shell w)
  unfolding ensure_shell
  ensure_shell-Aside =
      bind-Triple (paste-Leaves Aside Aside (entered probe) (λ c e. (probe-Echoes c e.0, e.1)))
        (λ _. wait-Leaves Aside w.prompt (λ c e. (later-Echoes c e.0, e.1)))

  tidy-Echoes : Leaves Echoes Echoes (tidy w)
  unfolding tidy
  tidy-Echoes = bind-Triple (paste-Leaves Echoes Echoes (entered clear) clear-Echoes) (λ _.
      bind-Triple (wait-Leaves Echoes w.prompt later-Echoes)
        (λ _. give-Leaves Echoes Echoes tt (λ c e. e)))

  -- A step behind which a property holds, thrown or not, is looked at where it returns.
  pub looked_at : {A : Type 0} (I : Console → Type 0) {m : Step A} → Quiet w I m → Leaves I I m
  looked_at I h = exit-Triple (λ c. I c × Threw w) (λ c. Threw w) (λ c x. x.1) h

  -- Where the terminal is not known to be free, it is freed.
  free_reader-Free : (clean : Bool) → Leaves (λ c. clean ≡ true → Free c) Free (free_reader w clean)
  unfolding free_reader
  free_reader-Free true = give-Leaves (λ c. true ≡ true → Free c) Free tt (λ c f. f refl)
  free_reader-Free false =
      bind-Triple
        (paste-Leaves (λ c. false ≡ true → Free c) Free (entered interrupt)
          (λ c f. interrupt-Free c.acts))
        (λ _.
          bind-Triple (paste-Leaves Free Free (entered interrupt) (λ c f. interrupt-Free c.acts))
            (λ _.
              bind-Triple (wait-Leaves Free w.prompt (λ c f. f))
                (λ _. give-Leaves Free Free tt (λ c f. f))))

  restore-Echoes :
      (files : Str) (c : Console)
      → Free c
      → Echoes (record c { acts = entered (restore files) ∷ c.acts; time = c.time + 1 })
  unfolding plain
  restore-Echoes files c f = record {
    on = restore-on files c.acts f;
    free = plain-Free (entered (restore files)) c.acts refl f;
  }

  recover-Echoes :
      (clean : Bool) (files : Str)
      → Leaves (λ c. clean ≡ true → Free c) Echoes (recover w clean files)
  unfolding recover
  recover-Echoes clean files = bind-Triple (free_reader-Free clean) (λ _.
      bind-Triple (paste-Leaves Free Echoes (entered (restore files)) (restore-Echoes files))
        (λ _. tidy-Echoes))

  recover_if-Echoes :
      (files : Str) (d : Console) → Leaves (λ c. (c ≡ d) × Held c) Echoes (recover_if w files d)
  unfolding recover_if
  recover_if-Echoes files d =
      if_known (Leaves (λ c. (c ≡ d) × Held c) Echoes) d.engaged {x = recover w d.clean files}
        {y = give tt}
        (λ engaged. record {
          ends = λ c h.
              (recover-Echoes d.clean files).ends c
                (λ clean. h.1.1 (ap (λ (c : Console). c.clean) h.0 ∙ clean));
        })
        (λ aside.
          give-Leaves (λ c. (c ≡ d) × Held c) Echoes tt
            (λ c h. h.1.0 (ap (λ (c : Console). c.engaged) h.0 ∙ aside)))

  recovered-Echoes : (files : Str) → Leaves Held Echoes (console_of >>= recover_if w files)
  recovered-Echoes files = record { ends = λ c h. (recover_if-Echoes files c).ends c (refl, h) }

  exception_past :
      {A : Type 0} (v : Option A) (c : Console) → Threw w → Ends (λ a c. Threw w) (λ c. Threw w) v c
  exception_past none c t = t
  exception_past (some a) c t = t

  release-Echoes : Leaves Echoes Echoes (assign release)
  release-Echoes = record { ends = λ c e. record { on = e.on; free = e.free } }

  passed_on :
      (v : Option Unit)
      → Triple
          (Ends (λ a. Echoes) (λ c. Threw w) v)
          (λ t. Ends (λ a. Echoes) (λ c. Threw w) v)
          (λ c. Threw w)
          (assign release)
  passed_on none = record { ends = λ c t. t }
  passed_on (some a) = release-Echoes

  pub passed_through :
      {A : Type 0} (m : Step A) → Triple (λ c. Threw w) (λ a c. Threw w) (λ c. Threw w) m
  passed_through m = record { ends = λ c t. exception_past (m c).value (m c).console t }

  pub cleaned-Echoes : (files : Str) → Leaves Held Echoes (clean_up w files)
  unfolding clean_up
  cleaned-Echoes files =
      finally-Triple (λ a. Echoes) (λ c. Threw w) (λ a. Echoes) (λ c. Threw w)
        (recovered-Echoes files) passed_on
