-- ===== src/Transfer/Verified.antt =====
-- What the guest's reports decide.
use bashtion_wasm.Base.{
  ℕ, ◌≡◌, refl, ◌∙◌, Bool, true, false, not, ◌&&◌, ◌||◌, List, [], ◌∷◌, Option, none, some,
  if_known, Str, length, ◌==◌,
}
use bashtion_wasm.Steps.{give, ◌>>=◌}
use bashtion_wasm.Steps.Triples.{Triple, bind-Triple}
use bashtion_wasm.Transfer.Checksum.{cksum}
use bashtion_wasm.Transfer.Payload.{b64encode}
use bashtion_wasm.Transfer.Shell.{go, check, unpack, probe, interrupt, clear, pack, ready, restore}
use bashtion_wasm.Transfer.Console.{
  Failure, damaged, restoring, checking, putting_back, shown, reported, judged, sent, seen,
  handed_out, Act, entered, Guest, Console, note, show, assign, enter,
}
use bashtion_wasm.Transfer.Restore.{
  if_well, send_block, send_work, compare_sum, check_work, unpack_work, import_engaged, set_clean,
  import_work,
}
use bashtion_wasm.Transfer.Quiet.{
  Threw, Calm, Marked, Calm-Marked, plain, Quiet, paste-Triple, note-Quiet, give-Quiet, enter-Quiet,
  wait-Quiet, Traced,
}
use bashtion_wasm.Transfer.Quiet.Restore.{
  send_block-Quiet, send_work-Quiet, read_verdict-Quiet, import_work-keeps,
}

-- The guest's last report is of this size and this checksum.
unfoldable pub vouched : ℕ → ℕ → List Act → Bool
vouched size sum [] = false
vouched size sum (reported n s ∷ past) = (n == size) && (s == sum)
vouched size sum (a ∷ past) = vouched size sum past

-- Each unpacking stands behind such a report.
unfoldable pub checked : ℕ → ℕ → List Act → Bool
checked size sum [] = true
checked size sum (entered unpack ∷ past) = vouched size sum past && checked size sum past
checked size sum (a ∷ past) = checked size sum past

module _ (w : Guest) (size sum : ℕ) where
  abbrev Checked : Console → Type 0
  Checked c = checked size sum c.acts ≡ true

  plain-checked :
      (a : Act) (past : List Act)
      → plain a ≡ true
      → checked size sum past ≡ true
      → checked size sum (a ∷ past) ≡ true
  unfolding plain checked
  plain-checked (sent text) past h k = k
  plain-checked (seen m) past h k = k
  plain-checked (reported n s) past h k = k
  plain-checked (judged ok) past h k = k
  plain-checked (shown o) past h k = k
  plain-checked (handed_out bytes) past h k = k
  plain-checked (entered probe) past h k = k
  plain-checked (entered interrupt) past h k = k
  plain-checked (entered clear) past h k = k
  plain-checked (entered pack) past h k = k
  plain-checked (entered ready) past h k = k
  plain-checked (entered check) past h k = k
  plain-checked (entered unpack) past h k = absurd (cc)
  plain-checked (entered (go n)) past h k = k
  plain-checked (entered (restore files)) past h k = k

  Checked-Calm : Calm Checked
  Checked-Calm = record { acted = λ c a h i. plain-checked a c.acts h i; timed = λ c i. i }

  -- Behind a check that found no fault, the guest has vouched for the file.
  abbrev Vouched : Console → Type 0
  Vouched c = (vouched size sum c.acts ≡ true) × Checked c

  abbrev Afterwards : Option Failure → Console → Type 0
  Afterwards none = Vouched
  Afterwards (some why) = Checked

  abbrev Faulted : Console → Type 0
  Faulted c = Checked c × Threw w

  blocks-Quiet : (text : Str) (b total : ℕ) → Quiet w Checked (send_block w text b total)
  unfolding checked
  blocks-Quiet = send_block-Quiet w Checked Checked-Calm (λ c n i. i) (λ c text i. i)

  sent-Quiet : (b64 : Str) → Quiet w Checked (send_work w b64)
  sent-Quiet b64 = send_work-Quiet w Checked Checked-Calm blocks-Quiet b64

-- A report that was just taken down.
abbrev Reported : List ℕ → ℕ → ℕ → Console → Type 0
Reported bytes n s c =
    (vouched (length bytes) (cksum bytes) c.acts ≡ (n == length bytes) && (s == cksum bytes))
    × (checked (length bytes) (cksum bytes) c.acts ≡ true)

both_equal : (a b : Bool) → (not a || not b) ≡ false → a && b ≡ true
both_equal true true h = refl
both_equal true false h = absurd (cc)
both_equal false b h = absurd (cc)

both_true : {a b : Bool} → a ≡ true → b ≡ true → a && b ≡ true
both_true {a} {b} p q = rw (p, q) refl

module _ (w : Guest) (bytes : List ℕ) where
  abbrev Known : Console → Type 0
  Known = Checked w (length bytes) (cksum bytes)

  abbrev Out : Console → Type 0
  Out = Faulted w (length bytes) (cksum bytes)

  abbrev Answered : Option Failure → Console → Type 0
  Answered = Afterwards w (length bytes) (cksum bytes)

  Known-Calm : Calm Known
  Known-Calm = Checked-Calm w (length bytes) (cksum bytes)

  Known-Marked : Marked Known
  Known-Marked = Calm-Marked Known-Calm (λ c i. i)

  reported_note : (n s : ℕ) → Triple Known (λ t. Reported bytes n s) Out (note (reported n s))
  unfolding checked vouched
  reported_note n s = record { ends = λ c k. (refl, k) }

  faulty :
      (n s : ℕ)
      → Triple
          (Reported bytes n s)
          Answered
          Out
          (assign set_clean >>= λ _. give (some (damaged n (length bytes))))
  faulty n s = record { ends = λ c r. r.1 }

  faultless :
      (n s : ℕ)
      → (not (n == length bytes) || not (s == cksum bytes)) ≡ false
      → Triple (Reported bytes n s) Answered Out (give none)
  faultless n s h = record {
    ends = λ c r. (r.0 ∙ both_equal (n == length bytes) (s == cksum bytes) h, r.1);
  }

  compared : (sum : Option (ℕ × ℕ)) → Triple Known Answered Out (compare_sum bytes sum)
  unfolding compare_sum
  compared none = record { ends = λ c k. k }
  compared (some (n, s)) = bind-Triple (reported_note n s) (λ _.
      if_known (Triple (Reported bytes n s) Answered Out)
        (not (n == length bytes) || not (s == cksum bytes)) (λ h. faulty n s) (faultless n s))

  checked_work : Triple Known Answered Out (check_work w bytes)
  unfolding check_work plain
  checked_work = bind-Triple (note-Quiet w Known Known-Calm (shown checking) refl) (λ _.
      bind-Triple (enter-Quiet w Known Known-Calm check refl)
        (λ _. bind-Triple (wait-Quiet w Known Known-Calm w.summed) compared))

  -- The unpacking is typed where the guest has vouched.
  abbrev Vouching : Console → Type 0
  Vouching = Vouched w (length bytes) (cksum bytes)

  shown_Vouching : Triple Vouching (λ t. Vouching) Out (show putting_back)
  unfolding vouched checked
  shown_Vouching = record { ends = λ c v. v }

  typed_unpack : Triple Vouching (λ t. Known) Out (enter w unpack)
  unfolding checked
  typed_unpack =
      paste-Triple w Vouching Known Out (entered unpack) (λ c v. both_true (v.0) (v.1))
        (λ c v t. (v.1, t))

  unpacked_work :
      (why : Option Failure) → Triple (Answered why) (λ i. Known) Out (unpack_work w why)
  unfolding unpack_work plain
  unpacked_work (some why) = give-Quiet w Known Known-Calm _
  unpacked_work none = bind-Triple shown_Vouching (λ _. bind-Triple typed_unpack (λ _.
      bind-Triple (wait-Quiet w Known Known-Calm w.unpacked)
        (read_verdict-Quiet w Known Known-Calm Known-Marked)))

  check_if_well :
      (why : Option Failure) → Triple Known Answered Out (if_well (check_work w bytes) why)
  check_if_well none = checked_work
  check_if_well (some why) = record { ends = λ c k. k }

  engaged_work : Quiet w Known (import_engaged w bytes)
  unfolding import_engaged plain
  engaged_work = bind-Triple (note-Quiet w Known Known-Calm (shown restoring) refl) (λ _.
      bind-Triple
        (bind-Triple (sent-Quiet w (length bytes) (cksum bytes) (b64encode w.btoa bytes))
          check_if_well)
        unpacked_work)

  Known-Traced : Traced Known
  Known-Traced = record {
    calm = Known-Calm;
    marks = Known-Marked;
    begun = λ c k. k;
    taken = λ c k. k;
    released = λ c k. k;
  }

-- Whatever the guest answers and whichever paste throws, importWork types the unpacking only behind a
-- report of the guest that what it holds has the size and the checksum of the file.
pub import_work-checked :
    (w : Guest) (bytes : List ℕ) (c : Console)
    → checked (length bytes) (cksum bytes) c.acts ≡ true
    → checked (length bytes) (cksum bytes) (import_work w bytes c).console.acts ≡ true
import_work-checked w bytes c k =
    import_work-keeps w bytes (Known w bytes) (Known-Traced w bytes) (engaged_work w bytes) c k
