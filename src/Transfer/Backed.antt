-- ===== src/Transfer/Backed.antt =====
-- What exportWork hands on, and what the browser keeps.
use bashtion_wasm.Base.{
  ℕ, ◌≡◌, refl, arith, Bool, true, false, not, ◌&&◌, ◌||◌, List, [], ◌∷◌, Option, none, some,
  if_keep, if_known, Bool-cases, inl, inr, ◌⊎◌, Str, length, ◌==◌,
}
use bashtion_wasm.Steps.{give, follow, ◌>>=◌}
use bashtion_wasm.Transfer.Quiet.Save.{export_work-keeps}
use bashtion_wasm.Steps.Triples.{Ends, Triple, bind-Triple, finally-Triple}
use bashtion_wasm.Transfer.Checksum.{cksum}
use bashtion_wasm.Transfer.Shell.{t_pack, pack}
use bashtion_wasm.Transfer.Console.{
  Failure, preparing, saving, collecting, shown, reported, handed_out, entered, sent, seen, judged,
  Act, Packed, archive, pack_failed, Guest, Console, Outcome, Step, note, show, assign, enter, wait,
  wait_marker, ensure_shell,
}
use bashtion_wasm.Transfer.Restore.{set_engaged, set_clean, begin, clean_up, release}
use bashtion_wasm.Transfer.Save.{
  save_files, without_space, give_up, verify, receive, collect, export_engaged, export_at_prompt,
  export_body, export_held, export_work, store, save_bytes, save, download_bytes, download,
}
use bashtion_wasm.Transfer.Quiet.{Calm, Calm-Marked, clean_up-keeps, Traced}

-- The guest has reported an archive of this size and this checksum.
unfoldable pub reports : ℕ → ℕ → List Act → Bool
reports size sum [] = false
reports size sum (reported n s ∷ past) = (n == size) && (s == sum) || reports size sum past
reports size sum (a ∷ past) = reports size sum past

pub reports_more :
    (size sum : ℕ) (a : Act) (past : List Act)
    → reports size sum past ≡ true
    → reports size sum (a ∷ past) ≡ true
unfolding reports
reports_more size sum (reported n s) past h = ground arith
reports_more size sum (entered l) past h = h
reports_more size sum (sent text) past h = h
reports_more size sum (seen m) past h = h
reports_more size sum (judged ok) past h = h
reports_more size sum (shown o) past h = h
reports_more size sum (handed_out bytes) past h = h

-- The guest vouches for a file, where there is one.
abbrev pub Backed : Option (List ℕ) → Console → Type 0
Backed none c = Unit
Backed (some bytes) c = reports (length bytes) (cksum bytes) c.acts ≡ true

Backed-Calm : (o : Option (List ℕ)) → Calm (Backed o)
Backed-Calm none = record { acted = λ c a h i. tt; timed = λ c i. tt }
Backed-Calm (some bytes) = record {
  acted = λ c a h i. reports_more (length bytes) (cksum bytes) a c.acts i;
  timed = λ c i. i;
}

abbrev Any : Console → Type 0
Any c = Unit

Any-Calm : Calm Any
Any-Calm = Backed-Calm none

both_same :
    (l k size sum : ℕ) → (not (l == size) || not (k == sum)) ≡ false → (l ≡ size) × (k ≡ sum)
both_same l k size sum h = (ground arith, ground arith)

same_report :
    (l k size sum : ℕ) (acts : List Act)
    → (not (l == size) || not (k == sum)) ≡ false
    → reports size sum acts ≡ true
    → reports l k acts ≡ true
same_report l k size sum acts h p =
    let (same_size, same_sum) = both_same l k size sum h in rw (same_size, same_sum) p

whatever : {A : Type 0} (v : Option A) (c : Console) → Ends (λ a. Any) Any v c
whatever none c = tt
whatever (some a) c = tt

module _ (w : Guest) where
  abbrev Hands : (Console → Type 0) → Step (Option (List ℕ)) → Type 0
  Hands P m = Triple P Backed Any m

  -- A step of which nothing is asked.
  plainly : {A : Type 0} (m : Step A) → Triple Any (λ a. Any) Any m
  plainly m = record { ends = λ c p. whatever (m c).value (m c).console }

  give_up-Hands : (P : Console → Type 0) (why : Failure) → Hands P (give_up why)
  give_up-Hands P why = record { ends = λ c p. tt }

  abbrev Told : ℕ → ℕ → Console → Type 0
  Told size sum c = reports size sum c.acts ≡ true

  handed :
      (bytes : List ℕ) (size sum : ℕ)
      → (not (length bytes == size) || not (cksum bytes == sum)) ≡ false
      → Hands (Told size sum) (assign set_clean >>= λ _. give (some bytes))
  handed bytes size sum h = record {
    ends = λ c p. same_report (length bytes) (cksum bytes) size sum c.acts h p;
  }

  verify-Hands : (size sum : ℕ) (o : Option (List ℕ)) → Hands (Told size sum) (verify size sum o)
  unfolding verify
  verify-Hands size sum none = give_up-Hands (Told size sum) _
  verify-Hands size sum (some bytes) =
      if_known (Hands (Told size sum)) (not (length bytes == size) || not (cksum bytes == sum))
        (λ h. give_up-Hands (Told size sum) _) (handed bytes size sum)

  noted : (size sum : ℕ) → Triple Any (λ t. Told size sum) Any (note (reported size sum))
  unfolding reports
  noted size sum = record { ends = λ c p. ground arith }

  receive-Hands : (p : Option Packed) → Hands Any (receive w p)
  unfolding receive
  receive-Hands none = give_up-Hands Any _
  receive-Hands (some (pack_failed said)) = give_up-Hands Any _
  receive-Hands (some (archive size sum text)) =
      bind-Triple (noted size sum) (λ _. verify-Hands size sum (w.atob (without_space text)))

  collect-Hands : (ok : Bool) → Hands Any (collect w ok)
  unfolding collect
  collect-Hands true =
      bind-Triple (plainly (show collecting))
        (λ _. bind-Triple (plainly (wait w.packed)) receive-Hands)
  collect-Hands false = give_up-Hands Any _

  export_engaged-Hands : Hands Any (export_engaged w)
  unfolding export_engaged
  export_engaged-Hands = bind-Triple (plainly (show saving)) (λ _.
      bind-Triple (plainly (enter w pack))
        (λ _. bind-Triple (plainly (wait_marker w t_pack)) collect-Hands))

  export_at_prompt-Hands : (ok : Bool) → Hands Any (export_at_prompt w ok)
  unfolding export_at_prompt
  export_at_prompt-Hands true =
      bind-Triple (plainly (assign set_engaged)) (λ _. export_engaged-Hands)
  export_at_prompt-Hands false = give_up-Hands Any _

  export_body-Hands : Hands Any (export_body w)
  unfolding export_body
  export_body-Hands =
      bind-Triple (plainly (show preparing))
        (λ _. bind-Triple (plainly (ensure_shell w)) export_at_prompt-Hands)

  released : (o : Option (List ℕ)) (c : Console) → Backed o c → Backed o (release c)
  released none c h = tt
  released (some bytes) c h = h

  kept_through :
      (o : Option (List ℕ)) (files : Str) (v : Option Unit) (c : Console)
      → Backed o c
      → Ends (λ t. Ends Backed Any (some o)) Any v c
  kept_through o files none c h = tt
  kept_through o files (some x) c h = h

  cleaned-Backed :
      (v : Option (Option (List ℕ)))
      → Triple (Ends Backed Any v) (λ t. Ends Backed Any v) Any (clean_up w save_files)
  cleaned-Backed none = plainly (clean_up w save_files)
  cleaned-Backed (some o) = record {
    ends = λ c p.
        kept_through o save_files (clean_up w save_files c).value (clean_up w save_files c).console
          (clean_up-keeps w (Backed o) (Backed-Calm o) (released o) save_files c p);
  }

  export_held-Hands : Hands Any (export_held w)
  unfolding export_held
  export_held-Hands = finally-Triple Backed Any Backed Any export_body-Hands cleaned-Backed

  pub export_work-Hands : Hands Any (export_work w)
  unfolding export_work
  export_work-Hands = record {
    ends = λ c p.
        if_keep (λ (o : Outcome (Option (List ℕ))). Ends Backed Any o.value o.console) c.busy
          {x = give none c} {y = export_held w (begin c)} tt (export_held-Hands.ends (begin c) tt);
  }

abbrev Stored : Option (List ℕ) → Console → Type 0
Stored old c = c.stored ≡ old

Stored-Calm : (old : Option (List ℕ)) → Calm (Stored old)
Stored-Calm old = record { acted = λ c a h i. i; timed = λ c i. i }

Stored-Traced : (old : Option (List ℕ)) → Traced (Stored old)
Stored-Traced old = record {
  calm = Stored-Calm old;
  marks = Calm-Marked (Stored-Calm old) (λ c i. i);
  begun = λ c i. i;
  taken = λ c i. i;
  released = λ c i. i;
}

-- The browser's copy is the one it was, or one for which the guest vouched.
abbrev pub Kept : Option (List ℕ) → Console → Type 0
Kept old c =
    (c.stored ≡ old)
    ⊎ ((bytes : List ℕ) × (c.stored ≡ some bytes)
        × (reports (length bytes) (cksum bytes) c.acts ≡ true))

module _ (w : Guest) (old : Option (List ℕ)) where
  save-Kept :
      (v : Option (Option (List ℕ))) (c : Console)
      → Ends Backed Any v c
      → c.stored ≡ old
      → Kept old (follow (save_bytes w) v c).console
  unfolding save_bytes store reports
  save-Kept none c h i = inl i
  save-Kept (some none) c h i = inl i
  save-Kept (some (some bytes)) c h i = elim (Bool-cases (w.storage_throws c.time)) [
    | inl threw ↦ rw threw (inl i)
    | inr wrote ↦ rw wrote (inr (bytes, refl, h))
  ]

  download-Kept :
      (v : Option (Option (List ℕ))) (c : Console)
      → Ends Backed Any v c
      → c.stored ≡ old
      → Kept old (follow (download_bytes w) v c).console
  unfolding download_bytes store reports
  download-Kept none c h i = inl i
  download-Kept (some none) c h i = inl i
  download-Kept (some (some bytes)) c h i = elim (Bool-cases (w.storage_throws c.time)) [
    | inl threw ↦ rw threw (inl i)
    | inr wrote ↦ rw wrote (inr (bytes, refl, h))
  ]

-- Whatever the guest answers and whatever throws, save and download leave the browser's copy as it is, or
-- replace it by a file of the size and the checksum that the guest has reported.
pub saves-Kept :
    (w : Guest) (c : Console)
    → Kept c.stored (save w c).console × Kept c.stored (download w c).console
unfolding save download
saves-Kept w c =
    let o = export_work w c in
    let backed = (export_work-Hands w).ends c tt in
    let same = export_work-keeps w (Stored c.stored) (Stored-Traced c.stored) c refl in
    (
      save-Kept w c.stored o.value o.console backed same,
      download-Kept w c.stored o.value o.console backed same,
    )
