-- ===== src/JobDispatcher/Tests.antt =====
-- One kick of a dispatcher with one worker, step by step.
use turf.Prelude.{ℕ_discrete, refl, arith, none}
use turf.JobDispatcher.System.{
  Job, System, Reach, here, next, worker, caller, start_add, start_leave, run, end_add, kick,
  start_full, start_open, own_run, end_full, end_open, reset_action,
}

abbrev job : Job
job = record { action = 4; filter = none }

-- Up to where the worker is about to run the action.
started : (s : System) × Reach 1 s
unfolding ℕ_discrete
started = (
  _,
  next
      (next
        (next (next (next here (worker 0 (omega arith) start_add)) (caller (kick job)))
          (caller (start_full (omega arith))))
        (caller start_open))
      (worker 0 (omega arith) (start_leave refl)),
)

finished : (s : System) × Reach 1 s
unfolding started ℕ_discrete
finished = (
  _,
  next
      (next
        (next
          (next
            (next (next started.1 (worker 0 (omega arith) run)) (worker 0 (omega arith) end_add))
            (caller own_run))
          (caller (end_full (omega arith))))
        (caller end_open))
      (caller reset_action),
)
