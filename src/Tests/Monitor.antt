-- ===== src/Tests/Monitor.antt =====
-- The theorems on checkpoints, applied to a machine that answers everything but two commands.
use bashtion_wasm.Base.{refl, true, false, ◌||◌, ◌==◌, [], none, some, if◌then◌else◌}
use bashtion_wasm.Machine.{
  World, Console, paste, wait_reply, wait_shell, end_bracketed, await_monitor, mux, judge,
  read_reply, run, resume_if, leave_monitor, leave_from, leave,
}
use bashtion_wasm.Machine.Checkpoint.{
  stop_machine, after_load, load_state, end_load, clean_up, load_body, rollback_held, rollback,
  checkpoint,
}
use bashtion_wasm.Machine.Safety.{Safe, may_run}
use bashtion_wasm.Machine.Safety.Rollback.{rollback-Safe}
use bashtion_wasm.Machine.Settled.{Settled, operations-Settled}

-- The ninth and the eighteenth wait give up: the first `loadvm`, and the next switch to the monitor.
abbrev patchy : World
patchy = record {
  throws = λ t. false;
  hears = λ t. if t == 8 || t == 17 then none else some (record { error = none; lists_tag = true });
  shell = λ t. true;
  bracketed = λ t. false;
  clock = λ t. t;
}

abbrev kept : Console
kept = record {
  page = record {
    busy = false;
    switches = 0;
    paused = false;
    unanswered = false;
    layered = true;
    saved_at = some 1;
    resumable = true;
  };
  acts = [];
  time = 0;
}

rollback-Safe_example : Safe (rollback patchy kept).console.acts
unfolding may_run
rollback-Safe_example = rollback-Safe patchy kept tt refl

operations-Settled_example :
    Settled patchy (checkpoint patchy kept) × Settled patchy (rollback patchy kept)
operations-Settled_example = operations-Settled patchy kept refl refl

-- A rollback after one whose `loadvm` never answered types `cont` where the monitor does not answer
-- the switch to it, since `paused` is left over from the first.
again-not_Safe : ¬ Safe (rollback patchy (rollback patchy kept).console).console.acts
unfolding rollback rollback_held load_body clean_up stop_machine load_state after_load end_load mux
    end_bracketed await_monitor run read_reply judge leave leave_from leave_monitor resume_if paste
    wait_reply wait_shell may_run
again-not_Safe s = absurd (cc (s.0))
