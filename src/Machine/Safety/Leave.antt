-- ===== src/Machine/Safety/Leave.antt =====
-- Leaving the monitor resumes only a machine that may run.
use bashtion_wasm.Base.{if_keep, ◌≡◌, refl, Bool, true, false, ◌&&◌, ◌||◌, arith}
use bashtion_wasm.Machine.{
  cont, typed, World, Page, Console, Outcome, give, ◌>>=◌, paste, wait_reply, in_monitor, mux,
  read_reply, run, why_of, resume_if, leave_monitor, leave_from, leave,
}
use bashtion_wasm.Machine.Triples.{Leads, bind-Leads, then-Keeps, bind-Keeps, give-Keeps}
use bashtion_wasm.Machine.Safety.{
  may_run, Guarded, wait_reply-Guarded, mux-Guarded, read_reply-Guarded,
}

-- Where the machine may run, `cont` is guarded too.
pub record Running (c : Console) : Type 0 where
  pub guarded : Guarded c
  pub runs : may_run c.acts ≡ true

pub paste_cont-Leads : (w : World) → Leads Running Guarded (paste w (typed cont))
unfolding paste may_run
paste_cont-Leads w = record {
  leads = λ c r.
      if_keep (λ (o : Outcome Unit). Guarded o.console) (w.throws c.time)
        (record { safe = r.guarded.safe; honest = r.guarded.honest })
        (record { safe = (r.runs, r.guarded.safe); honest = r.guarded.honest });
}

pub cont-Leads : (w : World) → Leads Running Guarded (why_of w cont)
unfolding run
cont-Leads w =
    bind-Leads {f = λ r. give r.why}
      (record {
        leads = λ c r.
            (bind-Leads {f = λ _. wait_reply w >>= read_reply cont} (paste_cont-Leads w)
                (λ _. bind-Keeps (wait_reply-Guarded w) (read_reply-Guarded cont))).leads
              c r;
      })
      (λ r. give-Keeps Guarded r.why)

-- `leave`, where it may resume only a machine that may run.
pub record Leaving (resume : Bool) (c : Console) : Type 0 where
  pub guarded : Guarded c
  pub runs : resume ≡ true → may_run c.acts ≡ true

pub resume_if-Leads :
    (w : World) (resume : Bool) → Leads (Leaving resume) Guarded (resume_if w resume)
unfolding resume_if
resume_if-Leads w true = record {
  leads = λ c l. (cont-Leads w).leads c (record { guarded = l.guarded; runs = l.runs refl });
}
resume_if-Leads w false = record { leads = λ c l. l.guarded }

pub and_left : (a b : Bool) → (a && b) ≡ true → a ≡ true
and_left a b e = ground arith

pub leave_monitor-Leads :
    (w : World) (resume : Bool) (p : Page)
    → Leads (Leaving resume) Guarded (leave_monitor w resume p)
unfolding leave_monitor
leave_monitor-Leads w resume p = record {
  leads = λ c l.
      (bind-Leads {f = λ why. mux w >>= λ _. give why}
          (resume_if-Leads w (resume && (p.unanswered || p.paused)))
          (λ why. then-Keeps (mux-Guarded w) (give-Keeps Guarded why))).leads
        (record c { page = record c.page { unanswered = false } })
        (record {
          guarded = record { safe = l.guarded.safe; honest = l.guarded.honest };
          runs = λ e. l.runs (and_left resume (p.unanswered || p.paused) e);
        });
}

pub leave_from-Leads :
    (w : World) (resume : Bool) (p : Page) → Leads (Leaving resume) Guarded (leave_from w resume p)
unfolding leave_from
leave_from-Leads w resume p =
    if_keep (Leads (Leaving resume) Guarded) (in_monitor p) (leave_monitor-Leads w resume p)
      (record { leads = λ c l. l.guarded })

pub leave-Leads : (w : World) (resume : Bool) → Leads (Leaving resume) Guarded (leave w resume)
unfolding leave
leave-Leads w resume = record { leads = λ c l. (leave_from-Leads w resume c.page).leads c l }
