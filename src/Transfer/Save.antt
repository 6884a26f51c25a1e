-- ===== src/Transfer/Save.antt =====
-- web/serialfs.js: exportWork, `save`, `download` and `hasSaved`.
use bashtion_wasm.Base.{
  ℕ, ◌+◌, Bool, true, false, not, ◌||◌, List, [], ◌∷◌, Option, none, some, codes, length, ◌==◌, Str,
  if◌then◌else◌,
}
use bashtion_wasm.Steps.{give, ◌>>=◌, finally}
use bashtion_wasm.Whitespace.{trim}
use bashtion_wasm.Regex.{space}
use bashtion_wasm.Transfer.Checksum.{cksum}
use bashtion_wasm.Transfer.Shell.{t_pack, pack}
use bashtion_wasm.Transfer.Console.{
  Failure, no_prompt, command_not_taken, went_quiet, garbled, not_collected, damaged, preparing,
  saving, collecting, saved_here, downloaded, failed, reported, handed_out, Packed, archive,
  pack_failed, Guest, Step, note, show, assign, enter, wait, wait_marker, ensure_shell,
}
use bashtion_wasm.Transfer.Restore.{set_clean, set_engaged, begin, clean_up, opfs_read}

abbrev pub save_files : Str
save_files = codes "/tmp/bw-save.tgz /tmp/bw-save.err"

-- `replace(/\s+/g, '')`.
unfoldable pub without_space : Str → Str
without_space [] = []
without_space (c ∷ s) = let rest = without_space s in if space c then rest else c ∷ rest

-- `ov.fail(...)` and `return null`.
abbrev pub give_up : Failure → Step (Option (List ℕ))
give_up why = show (failed why) >>= λ _. give none

unfoldable pub verify : ℕ → ℕ → Option (List ℕ) → Step (Option (List ℕ))
verify size sum none = give_up garbled
verify size sum (some bytes) =
    if not (length bytes == size) || not (cksum bytes == sum)
    then give_up (damaged (length bytes) size)
    else (assign set_clean >>= λ _. give (some bytes))

unfoldable pub receive : Guest → Option Packed → Step (Option (List ℕ))
receive w none = give_up went_quiet
receive w (some (pack_failed said)) = give_up (not_collected (trim said))
receive w (some (archive size sum text)) =
    note (reported size sum) >>= λ _. verify size sum (w.atob (without_space text))

unfoldable pub collect : Guest → Bool → Step (Option (List ℕ))
collect w true = show collecting >>= λ _. wait w.packed >>= receive w
collect w false = give_up command_not_taken

unfoldable pub export_engaged : Guest → Step (Option (List ℕ))
export_engaged w = show saving >>= λ _. enter w pack >>= λ _. wait_marker w t_pack >>= collect w

unfoldable pub export_at_prompt : Guest → Bool → Step (Option (List ℕ))
export_at_prompt w true = assign set_engaged >>= λ _. export_engaged w
export_at_prompt w false = give_up no_prompt

-- The `try` block.
unfoldable pub export_body : Guest → Step (Option (List ℕ))
export_body w = show preparing >>= λ _. ensure_shell w >>= export_at_prompt w

unfoldable pub export_held : Guest → Step (Option (List ℕ))
export_held w = finally (export_body w) (clean_up w save_files)

unfoldable pub export_work : Guest → Step (Option (List ℕ))
export_work w c = if c.busy then give none c else (assign begin >>= λ _. export_held w) c

-- opfsWrite: the browser's copy is replaced whole, or not. Where an exception comes between creating the
-- file and closing it, a copy that was missing may be an empty file from then on: `load` and hasSaved take
-- that as no copy, and so does `stored` here.
unfoldable pub store : Guest → List ℕ → Step Unit
store w bytes c =
    if w.storage_throws c.time
    then record { console = record c { time = c.time + 1 }; value = none }
    else record { console = record c { stored = some bytes; time = c.time + 1 }; value = some tt }

-- `.catch(() => {})`.
abbrev pub caught : Step Unit → Step Unit
caught m c = record { console = (m c).console; value = some tt }

unfoldable pub save_bytes : Guest → Option (List ℕ) → Step Unit
save_bytes w none = give tt
save_bytes w (some bytes) = store w bytes >>= λ _. show saved_here

unfoldable pub save : Guest → Step Unit
save w = export_work w >>= save_bytes w

unfoldable pub download_bytes : Guest → Option (List ℕ) → Step Unit
download_bytes w none = give tt
download_bytes w (some bytes) =
    caught (store w bytes) >>= λ _. note (handed_out bytes) >>= λ _. show downloaded

unfoldable pub download : Guest → Step Unit
download w = export_work w >>= download_bytes w

-- `!!(b && b.length)`.
abbrev pub holds : Option (List ℕ) → Bool
holds none = false
holds (some bytes) = not (length bytes == 0)

unfoldable pub has_saved : Guest → Step Bool
has_saved w = opfs_read w >>= λ bytes. give (holds bytes)
