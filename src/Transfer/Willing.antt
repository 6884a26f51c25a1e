-- ===== src/Transfer/Willing.antt =====
-- The steps of importWork with a guest that answers everything: what each gives for sure, and what was sent.
use mathlib.Core.Path.{subst}
use bashtion_wasm.Base.{
  ℕ, ◌≡◌, refl, sym, ap, ◌∙◌, arith, Bool, true, false, not, ◌||◌, List, [], ◌∷◌, ◌++◌, Option,
  none, some, if_keep, if_known, Str, length, ◌==◌,
}
use bashtion_wasm.Steps.{give, ◌>>=◌, finally}
use bashtion_wasm.Steps.Triples.{Ends, Triple, bind-Triple, finally-Triple}
use bashtion_wasm.Whitespace.{trim}
use bashtion_wasm.Transfer.Checksum.{cksum}
use bashtion_wasm.Transfer.Shell.{Marker, check, unpack, probe, interrupt, clear, restore}
use bashtion_wasm.Transfer.Console.{
  Failure, damaged, Overlay, checking, putting_back, reported, judged, sent, Act, entered, Guest,
  Console, Step, note, show, assign, paste, wait, wait_marker, ensure_shell, tidy, free_reader,
  recover,
}
use bashtion_wasm.Transfer.Restore.{
  Imported, restored, compare_sum, check_work, read_verdict, unpack_work, set_clean, recover_if,
  home_only_behind,
}

-- The payloads that the guest was sent, in the order in which they were.
unfoldable pub sent_text : List Act → Str
sent_text [] = []
sent_text (sent text ∷ past) = sent_text past ++ text
sent_text (a ∷ past) = sent_text past

-- A guest that finds every wait, with a console that takes every paste.
pub record Willing (w : Guest) (bytes : List ℕ) (said : Str) : Type 0 where
  pub takes : (t : ℕ) → w.throws t ≡ false
  pub prompts : (t : ℕ) → w.prompt t ≡ true
  pub marks : (t : ℕ) → w.marker t ≡ true
  pub sums : (t : ℕ) → w.summed t ≡ some (length bytes, cksum bytes)
  pub unpacks : (t : ℕ) → w.unpacked t ≡ some (record { is_ok = true; said = said })

-- So much was sent.
abbrev pub Sent : Str → Console → Type 0
Sent t c = sent_text c.acts ≡ t

-- A step that gives `a` for sure.
abbrev pub Gives : {A : Type 0} → Str → A → Str → Step A → Type 0
Gives t a u m = Triple (Sent t) (λ b c. (b ≡ a) × Sent u c) (λ c. ⊥) m

at_value :
    {A B : Type 0} (R : B → Console → Type 0) (P : Console → Type 0) (a b : A) (f : A → Step B)
    (e : b ≡ a) (c : Console)
    → Ends R (λ c. ⊥) (f a c).value (f a c).console
    → Ends R (λ c. ⊥) (f b c).value (f b c).console
at_value R P a b f e c h = subst (λ x. Ends R (λ c. ⊥) (f x c).value (f x c).console) (sym e) h

pub bind-Gives :
    {A B : Type 0} (t u v : Str) {a : A} {b : B} {m : Step A} (f : A → Step B)
    → Gives t a u m
    → Gives u b v (f a)
    → Gives t b v (m >>= f)
bind-Gives t u v {a} {b} f h k = bind-Triple h (λ x. record {
  ends = λ c p. at_value (λ y c. (y ≡ b) × Sent v c) (Sent u) a x f p.0 c (k.ends c p.1);
})

pub then-Gives :
    {A B : Type 0} (t u v : Str) {a : A} {b : B} {m : Step A} {n : Step B}
    → Gives t a u m
    → Gives u b v n
    → Gives t b v (m >>= λ _. n)
then-Gives t u v {n = n} h k = bind-Gives t u v (λ _. n) h k

cleaned :
    {A : Type 0} (v : Str) (a b : A)
    → b ≡ a
    → (x : Option Unit) (c : Console) → Ends (λ y c. (y ≡ tt) × Sent v c) (λ c. ⊥) x c
    → Ends (λ y c. (b ≡ a) × Sent v c) (λ c. ⊥) x c
cleaned v a b e none c h = h
cleaned v a b e (some y) c h = (e, h.1)

cleanup_Gives :
    {A : Type 0} (u v : Str) (a : A) {r : Step Unit}
    → Gives u tt v r
    → (o : Option A)
    → Triple
        (Ends (λ b c. (b ≡ a) × Sent u c) (λ c. ⊥) o)
        (λ y. Ends (λ b c. (b ≡ a) × Sent v c) (λ c. ⊥) o)
        (λ c. ⊥)
        r
cleanup_Gives u v a k none = record { ends = λ c p. absurd p }
cleanup_Gives u v a {r} k (some b) = record {
  ends = λ c p. cleaned v a b p.0 (r c).value (r c).console (k.ends c p.1);
}

-- A body that gives its value for sure, and a cleanup that returns for sure.
pub finally_then :
    {A : Type 0} (t u v : Str) {a : A} {m : Step A} {r : Step Unit}
    → Gives t a u m
    → Gives u tt v r
    → Gives t a v (finally m r)
finally_then t u v {a} {m} {r} h k =
    finally-Triple (λ b c. (b ≡ a) × Sent u c) (λ c. ⊥) (λ b c. (b ≡ a) × Sent v c) (λ c. ⊥) h
      (cleanup_Gives u v a k)

differs : (a b : ℕ) → (not (a == a) || not (b == b)) ≡ true → ⊥
differs a b h = ground arith

module _ (w : Guest) (bytes : List ℕ) (said : Str) (k : Willing w bytes said) (t : Str) where
  pub paste-Gives :
      (a : Act) (u : Str)
      → ((past : List Act) → sent_text past ≡ t → sent_text (a ∷ past) ≡ u)
      → Gives t tt u (paste w a)
  unfolding paste
  paste-Gives a u h = record { ends = λ c p. rw (k.takes c.time) (refl, h c.acts p) }

  pub wait-Gives :
      {A : Type 0} (found : ℕ → A) (a : A) → ((n : ℕ) → found n ≡ a) → Gives t a t (wait found)
  unfolding wait
  wait-Gives found a h = record { ends = λ c p. (h c.time, p) }

  pub wait_marker-Gives : (m : Marker) → Gives t true t (wait_marker w m)
  unfolding wait_marker sent_text
  wait_marker-Gives m = record { ends = λ c p. rw (k.marks c.time) (refl, p) }

  pub give-Gives : {A : Type 0} (a : A) → Gives t a t (give a)
  give-Gives a = record { ends = λ c p. (refl, p) }

  pub show-Gives : (o : Overlay) → Gives t tt t (show o)
  unfolding sent_text
  show-Gives o = record { ends = λ c p. (refl, p) }

  pub note-Gives :
      (a : Act)
      → ((past : List Act) → sent_text past ≡ t → sent_text (a ∷ past) ≡ t)
      → Gives t tt t (note a)
  note-Gives a h = record { ends = λ c p. (refl, h c.acts p) }

  pub ensure_shell-Gives : Gives t true t (ensure_shell w)
  unfolding ensure_shell sent_text
  ensure_shell-Gives =
      then-Gives t t t (paste-Gives (entered probe) t (λ past p. p))
        (wait-Gives w.prompt true k.prompts)

  pub tidy-Gives : Gives t tt t (tidy w)
  unfolding tidy sent_text
  tidy-Gives =
      then-Gives t t t (paste-Gives (entered clear) t (λ past p. p))
        (bind-Gives t t t _ (wait-Gives w.prompt true k.prompts) (give-Gives tt))

  pub free_reader-Gives : (clean : Bool) → Gives t tt t (free_reader w clean)
  unfolding free_reader sent_text
  free_reader-Gives true = give-Gives tt
  free_reader-Gives false = then-Gives t t t (paste-Gives (entered interrupt) t (λ past p. p)) (
      then-Gives t t t (paste-Gives (entered interrupt) t (λ past p. p))
        (bind-Gives t t t _ (wait-Gives w.prompt true k.prompts) (give-Gives tt)))

  pub recover-Gives : (clean : Bool) (files : Str) → Gives t tt t (recover w clean files)
  unfolding recover sent_text
  recover-Gives clean files =
      then-Gives t t t (free_reader-Gives clean)
        (then-Gives t t t (paste-Gives (entered (restore files)) t (λ past p. p)) tidy-Gives)

  pub recover_if-Gives : (files : Str) (d : Console) → Gives t tt t (recover_if w files d)
  unfolding recover_if
  recover_if-Gives files d =
      if_keep (Gives t tt t) d.engaged (recover-Gives d.clean files) (give-Gives tt)

  pub assign-Gives :
      (f : Console → Console) → ((c : Console) → (f c).acts ≡ c.acts) → Gives t tt t (assign f)
  assign-Gives f h = record { ends = λ c p. (refl, ap sent_text (h c) ∙ p) }

  abbrev faulted : Step (Option Failure)
  faulted = assign set_clean >>= λ _. give (some (damaged (length bytes) (length bytes)))

  pub compare_sum-Gives : Gives t none t (compare_sum bytes (some (length bytes, cksum bytes)))
  unfolding compare_sum sent_text
  compare_sum-Gives =
      then-Gives t t t (note-Gives (reported (length bytes) (cksum bytes)) (λ past p. p)) (
        if_known (Gives t none t)
          (not (length bytes == length bytes) || not (cksum bytes == cksum bytes)) {x = faulted}
          {y = give none} (λ h. absurd (differs (length bytes) (cksum bytes) h))
          (λ h. give-Gives none))

  pub check_work-Gives : Gives t none t (check_work w bytes)
  unfolding check_work sent_text
  check_work-Gives = then-Gives t t t (show-Gives checking) (
      then-Gives t t t (paste-Gives (entered check) t (λ past p. p)) (
        bind-Gives t t t (compare_sum bytes)
          (wait-Gives w.summed (some (length bytes, cksum bytes)) k.sums) compare_sum-Gives))

  abbrev pub outcome : Imported
  outcome = restored (home_only_behind false (trim said))

  pub read_verdict-Gives :
      Gives t outcome t (read_verdict (some (record { is_ok = true; said = said })))
  unfolding read_verdict sent_text
  read_verdict-Gives =
      then-Gives t t t (note-Gives (judged true) (λ past p. p))
        (then-Gives t t t (assign-Gives set_clean (λ c. refl)) (give-Gives outcome))

  pub unpack_work-Gives : Gives t outcome t (unpack_work w none)
  unfolding unpack_work sent_text
  unpack_work-Gives = then-Gives t t t (show-Gives putting_back) (
      then-Gives t t t (paste-Gives (entered unpack) t (λ past p. p)) (
        bind-Gives t t t read_verdict
          (wait-Gives w.unpacked (some (record { is_ok = true; said = said })) k.unpacks)
          read_verdict-Gives))
