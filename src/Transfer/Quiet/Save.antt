-- ===== src/Transfer/Quiet/Save.antt =====
-- The steps of exportWork.
use bashtion_wasm.Base.{
  ℕ, refl, Bool, true, false, not, ◌||◌, List, Option, none, some, if_keep, length, ◌==◌,
}
use bashtion_wasm.Steps.{give}
use bashtion_wasm.Steps.Triples.{Triple, bind-Triple, weaken-Triple}
use bashtion_wasm.Transfer.Checksum.{cksum}
use bashtion_wasm.Transfer.Shell.{t_pack, pack}
use bashtion_wasm.Transfer.Console.{
  Failure, preparing, no_prompt, saving, collecting, failed, shown, reported, Packed, archive,
  pack_failed, Guest, Console, Outcome,
}
use bashtion_wasm.Transfer.Restore.{begin}
use bashtion_wasm.Transfer.Save.{
  save_files, export_at_prompt, export_body, export_held, export_work, give_up, verify, receive,
  collect, export_engaged,
}
use bashtion_wasm.Transfer.Quiet.{
  Calm, plain, Quiet, note-Quiet, give-Quiet, tell-Quiet, mark-Told, Told, Marked, Threw, tells,
  enter-Quiet, wait-Quiet, wait_marker-Quiet, bind-Quiet, then-Quiet, ensure_shell-Quiet,
  Quiet-keeps, clean_up-keeps, Traced, take-Quiet,
}

module _ (w : Guest) (I : Console → Type 0) (calm : Calm I) where
  pub give_up-Quiet : (why : Failure) → Quiet w I (give_up why)
  unfolding plain
  give_up-Quiet why =
      then-Quiet w I calm (note-Quiet w I calm (shown (failed why)) refl) (give-Quiet w I calm none)

module _ (w : Guest) (I : Console → Type 0) (calm : Calm I) (marks : Marked I) where
  give_up-Told : (why : Failure) → Triple (Told I) (λ b. I) (λ c. I c × Threw w) (give_up why)
  give_up-Told why = weaken-Triple (λ c i. i.0) (give_up-Quiet w I calm why)

  verify-Told :
      (size sum : ℕ) (bytes : Option (List ℕ))
      → Triple (Told I) (λ b. I) (λ c. I c × Threw w) (verify size sum bytes)
  unfolding verify
  verify-Told size sum none = give_up-Told _
  verify-Told size sum (some bytes) =
      if_keep (Triple (Told I) (λ b. I) (λ c. I c × Threw w))
        (not (length bytes == size) || not (cksum bytes == sum)) (give_up-Told _)
        (mark-Told w I calm (some bytes))

  receive-Quiet : (p : Option Packed) → Quiet w I (receive w p)
  unfolding receive plain tells
  receive-Quiet none = give_up-Quiet w I calm _
  receive-Quiet (some (pack_failed said)) = give_up-Quiet w I calm _
  receive-Quiet (some (archive size sum text)) =
      tell-Quiet w I calm (reported size sum) marks refl refl (verify-Told size sum _)

  collect-Quiet : (ok : Bool) → Quiet w I (collect w ok)
  unfolding collect plain
  collect-Quiet true =
      then-Quiet w I calm (note-Quiet w I calm (shown collecting) refl)
        (bind-Quiet w I calm (wait-Quiet w I calm w.packed) (receive-Quiet))
  collect-Quiet false = give_up-Quiet w I calm _

  pub export_engaged-Quiet : Quiet w I (export_engaged w)
  unfolding export_engaged plain
  export_engaged-Quiet = then-Quiet w I calm (note-Quiet w I calm (shown saving) refl) (
      then-Quiet w I calm (enter-Quiet w I calm pack refl)
        (bind-Quiet w I calm (wait_marker-Quiet w I calm t_pack) collect-Quiet))

module _ (w : Guest) (I : Console → Type 0) (t : Traced I) where
  export_at_prompt-Quiet : (ok : Bool) → Quiet w I (export_at_prompt w ok)
  unfolding export_at_prompt
  export_at_prompt-Quiet true =
      bind-Triple (take-Quiet w I t) (λ _. export_engaged-Quiet w I t.calm t.marks)
  export_at_prompt-Quiet false = give_up-Quiet w I t.calm no_prompt

  export_body-Quiet : Quiet w I (export_body w)
  unfolding export_body plain
  export_body-Quiet =
      bind-Triple (note-Quiet w I t.calm (shown preparing) refl)
        (λ _. bind-Triple (ensure_shell-Quiet w I t.calm) export_at_prompt-Quiet)

  pub export_work-keeps : (c : Console) → I c → I (export_work w c).console
  unfolding export_work export_held
  export_work-keeps c i =
      if_keep (λ (o : Outcome (Option (List ℕ))). I o.console) c.busy {x = give none c}
        {y = export_held w (begin c)} i
        (clean_up-keeps w I t.calm t.released save_files (export_body w (begin c)).console
          (Quiet-keeps w I export_body-Quiet (begin c) (t.begun c i)))
