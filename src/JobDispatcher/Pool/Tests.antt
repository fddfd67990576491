-- ===== src/JobDispatcher/Pool/Tests.antt =====
-- A dispatcher that starts a worker, kicks it, and lets it exit, step by step.
use turf.Prelude.{ℕ_discrete, ◌≡◌, true, false, refl, arith, none, [], ◌∷◌, leb, ◌||◌, not}
use turf.JobDispatcher.System.{Job}
use turf.JobDispatcher.Pool.{
  System, Step, Reach, here, next, worker, caller, set_num, grow, spawn, grown, start_add, kick,
  start_full, start_open, start_leave, go_on, run, end_add, own_run, end_full, end_open,
  reset_action, end_leave, shrink, mark, marked, exit_full, exit_open, leave, join, joined,
  settle_full, settle_open,
}
use turf.JobDispatcher.Pool.Invariant.Defs.{expected, is_absent}
use turf.JobDispatcher.Pool.Progress.{Moved, call-Moved}
use turf.JobDispatcher.Pool.Safety.{resized_kicks_complete, threads_counted}

abbrev job : Job
job = record { action = 4; filter = none }

-- Up to where the worker is about to run the action.
started : (s : System) × Reach s
unfolding ℕ_discrete
started = (
  _,
  next
      (next
        (next
          (next
            (next
              (next
                (next
                  (next
                    (next (next here (caller (set_num 1 (omega arith))))
                      (caller (grow 1 false (omega arith))))
                    (caller (spawn 1 false (omega arith))))
                  (caller (grown 1 false (omega arith))))
                (worker 0 start_add))
              (caller (kick job)))
            (caller (start_full (omega arith))))
          (caller (start_open)))
        (worker 0 (start_leave refl)))
      (worker 0 (go_on refl)),
)

-- The kick has ended, and the worker waits in the start gate.
kicked : (s : System) × Reach s
unfolding started ℕ_discrete
kicked = (
  _,
  next
      (next
        (next
          (next
            (next
              (next (next (next started.1 (worker 0 run)) (worker 0 end_add)) (caller (own_run)))
              (caller (end_full (omega arith))))
            (caller (end_open)))
          (caller (reset_action)))
        (worker 0 (end_leave refl)))
      (worker 0 start_add),
)

-- The worker is about to exit.
shrinking : (s : System) × Reach s
unfolding kicked started ℕ_discrete
shrinking = (
  _,
  next
      (next
        (next
          (next
            (next
              (next (next kicked.1 (caller (set_num 0 (omega arith))))
                (caller (shrink 0 false (omega arith))))
              (caller (mark 0 0 false (omega arith))))
            (caller (marked 1 0 false (omega arith))))
          (caller (exit_full 0 false (omega arith))))
        (caller (exit_open 0 false)))
      (worker 0 (start_leave refl)),
)

shrunk : (s : System) × Reach s
unfolding shrinking kicked started ℕ_discrete
shrunk = (
  _,
  next
      (next
        (next
          (next (next shrinking.1 (worker 0 (leave refl)))
            (caller (join 0 0 false (omega arith) refl)))
          (caller (joined 1 0 false (omega arith))))
        (caller (settle_full false (omega arith))))
      (caller (settle_open false)),
)

resized_kicks_complete_example : shrunk.0.runs 1 ≡ 4 ∷ []
unfolding shrunk shrinking kicked started expected ℕ_discrete
resized_kicks_complete_example = resized_kicks_complete shrunk.1 refl 1

threads_counted_example :
    (is_absent (shrunk.0.pc 0) ≡ leb shrunk.0.workers 0)
    × ((leb shrunk.0.workers 0 || not (shrunk.0.must_exit 0)) ≡ true)
unfolding shrunk shrinking kicked started ℕ_discrete
threads_counted_example = threads_counted shrunk.1 refl 0

call-Moved_example : (t : System) × Step shrinking.0 t × Moved shrinking.0 t
unfolding shrinking kicked started ℕ_discrete
call-Moved_example = call-Moved shrinking.1 (λ e. ground (arith, e))
