-- ===== src/Lib.antt =====
-- bashtion-wasm: a Linux machine in the browser, its serial console, and the Worker that serves it.
--
-- The page runs QEMU in WebAssembly and reaches the guest through one serial console. web/serialtap.js
-- keeps the raw record of what the guest prints and a model of the screen that it draws, and answers
-- from that model whether the shell is at its prompt, which everything that types into the console
-- asks first. web/serialfs.js takes checkpoints of the machine and goes back to them through QEMU's
-- monitor, which shares the console with the shell, and saves and loads the user's work through the
-- shell itself, as an archive in base64. web/termfit.js tells the guest the size of the
-- terminal. deploy/worker.js serves the three large files of the machine from a private bucket.
--
-- Files and the code that they model:
--   Base, Base/*       lists over native numbers, JavaScript's splice and ===, shared tests and lemmas
--   Regex, Regex/*     a backtracking matcher for the regular expressions of the code, and what it finds
--   Screen             web/serialtap.js, makeScreen
--     Width, Cells     width; newRow, text, blank, erase
--     Display          size, buffer, line, reset, and the variables of makeScreen as one record
--     Motion           scrollUp, scrollDown, lineFeed, reverseIndex, print, control, save, restore, mode
--     Fit              fit
--     Csi              dispatch
--     Parser           said, escape, write
--     Reading          cursorLine, lines, lastLine
--     Bounds/*, Whole/*, Cells/Whole, Chunks, Context, Typing/*   what is proved of it
--   Tap, Tap/*         web/serialtap.js: strip, install, screenOf, atPrompt
--   Worker             deploy/worker.js: fetch, serveFromR2
--     Http, Number     the parts of the Fetch and R2 interfaces, and of JavaScript's numbers, that are used
--     Range            parseRange
--     Cache, Requests, Decimal, Reads, Asks   what is proved of it
--   Machine            web/serialfs.js: mux, run, leave, and what they are made of
--     Checkpoint       ensureShell, resync, checkpoint, rollback
--     Triples, Tame, Safety/*, Serial, Settled   what is proved of it
--   Sync, Sync/*       web/termfit.js, makeSync
--   Window, Window/*   web/termfit.js, cell, measure and fit
--   Boot, Boot/*       web/bootscreen.js: the polling of start, reveal and its interval, handover; web/fork/boot.js: canSend and
--                      the handler of a resize
--   Steps, Steps/*     operations in steps that may throw, and the rules for them
--   Bits, Bits/*       exclusive or and masks on native numbers
--   Transfer           web/serialfs.js, saving and loading the user's work
--     Checksum         CRC, cksum
--     Payload          b64encode, and the blocks and lines of importWork
--     Shell            emit, and what is typed into the guest's shell
--     Console          tidy, recover, ensureShell, and the parameters of a transfer
--     Restore, Save    importWork and load; exportWork, save, download, hasSaved
--     Wait             waitFor and its time limits
--     Wait/*, Checksum/*, Payload/*, Shell/Echo, Quiet/*, Terminal, Recovery, Settled, Verified, Flow, Willing, Complete, Backed
--                      what is proved of it
--   Whitespace         JavaScript's trim()
--   Tests, Tests/*     the theorems applied at concrete inputs
--
-- How the code is read. A JavaScript string is the list of the code points that for-of gives; `units`
-- counts its UTF-16 units where the code asks for its length. An array of cells is a list, and a cell
-- past its end is undefined. The variables that makeScreen closes over are the record Display, with the
-- parser's in Screen, and each function takes the state and gives it back. `buf` is `alt` where there is
-- one, and else `main`. Every loop is a structural recursion on its number of rounds, so no fuel runs
-- out: a round of either loop of fit changes the height by one, which gives the number of its rounds.
--
-- The steps of web/serialfs.js take the console (the page's variables, the trace of what was typed, answered
-- and shown, and the time) and give it back with a value, or with none for an exception; a wait is one
-- step that asks the world what the engine or the guest answered in time, so each operation is a finite sequence.
-- The blocks of an archive are as many rounds as there are blocks, and the loop over the length of a
-- file has four rounds, which are all that a 32-bit length leaves. b64encode and the lines of a block go
-- on in steps of at least one, for as many rounds as there are bytes or characters.
--
-- The numbers of the code are natural ones where they cannot be below zero. What parseRange makes of its
-- digits is a double, rounded as JavaScript rounds, and a length or a last byte is an integer. The sizes of
-- a cell in web/termfit.js are exact fractions, whose quotients the source takes in doubles.
--
-- What a transfer types is read twice: as the text that web/serialfs.js makes, and as what that does to the
-- guest's terminal (Transfer/Terminal), which is the behaviour that the comments of the source describe. A
-- copy of the work that is an empty file counts as none, as it does for load and hasSaved.
--
-- The loops on a timer, waitFor and the polling of the boot screen, take what each round observes from a
-- function of its number, and a number of rounds: the theorems on when they end give how many are enough.
--
-- What is not modelled: how the boot screen is drawn and fades, and what the page's buttons are wired to; the
-- browser's TextDecoder, timers, storage, base64 and DOM, xterm.js, QEMU, R2 and the cache of the
-- platform, which the definitions take as parameters where they use them; the pages' scripts, the
-- build of the image and its snapshot, and the vendored engine.
pub mod Base
pub mod Bits
pub mod Boot
pub mod Machine
pub mod Regex
pub mod Screen
pub mod Steps
pub mod Sync
pub mod Tap
pub mod Tests
pub mod Transfer
pub mod Whitespace
pub mod Window
pub mod Worker
