-- ===== src/Transfer/Shell.antt =====
-- web/serialfs.js: what the page types into the guest's shell, and the markers that it waits for. Each
-- marker is cut in two by shell quotes where it is typed, and whole where it is printed.
pub mod Echo
use bashtion_wasm.Base.{
  ℕ, zero, suc, ◌+◌, ◌/◌, ◌%◌, List, [], ◌∷◌, ◌++◌, codes, Str, ◌==◌, if◌then◌else◌,
}

pub data Marker : Type 0 where
  t_pack r_ready r_go r_blk : Marker

-- The lines, `interrupt` being a key and `probe` a key and Enter. `go n` starts a reader of `n` bytes.
pub data Line : Type 0 where
  probe interrupt clear pack ready check unpack : Line
  go : ℕ → Line
  restore : Str → Line

-- `PACK` and `UNPACK`.
abbrev pub pack_command : Str
pack_command = codes "sudo /usr/local/sbin/bashtion-pack"

abbrev pub unpack_command : Str
unpack_command = codes "sudo /usr/local/sbin/bashtion-unpack"

-- ` + text`, where there is one.
unfoldable pub spaced : Str → Str
spaced [] = []
spaced (c ∷ s) = b' ' ∷ c ∷ s

-- `emit`.
abbrev pub emit : Str → Str → Str → Str
emit tag fmt args =
    codes "printf '\\nBW''" ++ (tag ++ (spaced fmt ++ (codes "\\n'" ++ spaced args)))

-- A number in decimal; `n + 1` rounds are enough.
unfoldable pub decimal_from : ℕ → ℕ → Str
decimal_from zero n = []
decimal_from (suc rounds) n =
    let front = decimal_from rounds (n / 10) in
    if n / 10 == 0 then (b'0' + n % 10) ∷ [] else front ++ ((b'0' + n % 10) ∷ [])

abbrev pub decimal : ℕ → Str
decimal n = decimal_from (n + 1) n

abbrev pub tail_of : Str → Str
tail_of file = codes "\"$(tail -1 " ++ (file ++ codes " | tr -c \"[:print:]\" \" \")\"")

abbrev pub size_and_sum : Str → Str
size_and_sum file =
    codes "\"$(wc -c < "
    ++ (file ++ (codes ")\" \"$(cksum < " ++ (file ++ codes " | cut -d\" \" -f1)\"")))

abbrev pack_line : Str
pack_line =
    codes "stty -echo; "
    ++ (emit (codes "T-PACK") [] []
        ++ (codes "; if "
            ++ (pack_command
                ++ (codes " > /tmp/bw-save.tgz 2>/tmp/bw-save.err; then "
                    ++ (emit (codes "T-BEGIN") (codes "%s %s")
                          (size_and_sum (codes "/tmp/bw-save.tgz"))
                        ++ (codes "; base64 -w0 < /tmp/bw-save.tgz; "
                            ++ (emit (codes "T-END") [] []
                                ++ (codes "; else "
                                    ++ (emit (codes "T-ERR") (codes "%s")
                                          (tail_of (codes "/tmp/bw-save.err"))
                                        ++ codes
                                            "; fi; rm -f /tmp/bw-save.tgz /tmp/bw-save.err; stty echo\n")))))))))

abbrev ready_line : Str
ready_line =
    codes "stty -echo; rm -f /tmp/bw-load.b64 /tmp/bw-load.tgz; "
    ++ (emit (codes "R-READY") [] [] ++ codes "\n")

abbrev check_line : Str
check_line =
    codes "base64 -d < /tmp/bw-load.b64 > /tmp/bw-load.tgz 2>/dev/null; "
    ++ (emit (codes "R-SUM") (codes "%s %s") (size_and_sum (codes "/tmp/bw-load.tgz"))
        ++ codes "\n")

abbrev unpack_line : Str
unpack_line =
    codes "if "
    ++ (unpack_command
        ++ (codes " < /tmp/bw-load.tgz >/tmp/bw-load.err 2>&1; then "
            ++ (emit (codes "R-OK") (codes "%s") (tail_of (codes "/tmp/bw-load.err"))
                ++ (codes "; else "
                    ++ (emit (codes "R-FAIL") (codes "%s") (tail_of (codes "/tmp/bw-load.err"))
                        ++ codes
                            "; fi; rm -f /tmp/bw-load.b64 /tmp/bw-load.tgz /tmp/bw-load.err; stty echo\n")))))

abbrev go_line : ℕ → Str
go_line n =
    emit (codes "R-GO") [] []
    ++ (codes "; head -c "
        ++ (decimal n
            ++ (codes " >> /tmp/bw-load.b64; " ++ (emit (codes "R-BLK") [] [] ++ codes "\n"))))

abbrev restore_line : Str → Str
restore_line files = codes "stty echo; rm -f " ++ (files ++ codes " 2>/dev/null\n")

abbrev probe_line : Str
probe_line = 0x15 ∷ b'\n' ∷ []

abbrev clear_line : Str
clear_line = codes "clear\n"

-- What is typed.
unfoldable pub line_text : Line → Str
line_text probe = probe_line
line_text interrupt = 0x03 ∷ []
line_text clear = clear_line
line_text pack = pack_line
line_text ready = ready_line
line_text check = check_line
line_text unpack = unpack_line
line_text (go n) = go_line n
line_text (restore files) = restore_line files
