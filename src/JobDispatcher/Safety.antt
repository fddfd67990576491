-- ===== src/JobDispatcher/Safety.antt =====
-- What the threads of turf/extra/JobDispatcher.h have run, and when.
use turf.Prelude.{ℕ, zero, suc, ◌^◌, ◌<◌, ◌≤◌, true, ◌≡◌, arith}
use turf.JobDispatcher.System.{System, Reach, idle, running}
use turf.JobDispatcher.Invariant.{expected, opened, Reach-Inv}

-- With fewer than `2 ^ 64` workers: in every reachable state in which no kick is under way, each
-- of the `n` workers and the caller have run the actions of the kicks so far, each action once, in
-- the order of the kicks, and only those whose filter lets the thread run.
pub kicks_complete :
    {n : ℕ} {s : System}
    → n < 2 ^ 64
    → Reach n s
    → s.main ≡ idle
    → (t : ℕ) → t ≤ n
    → s.runs t ≡ expected t s.finished
kicks_complete few r e zero le = ground (arith, (Reach-Inv few r).own_ran, e)
kicks_complete few r e (suc i) le = ground (arith, (Reach-Inv few r).ran i (omega arith), e)

-- With fewer than `2 ^ 64` workers: while a worker is about to run the action, the caller is
-- between the two gates, where it has set the action and has not yet taken it back.
pub runs_within_kick :
    {n : ℕ} {s : System}
    → n < 2 ^ 64
    → Reach n s
    → (i : ℕ) → i < n
    → s.pc i ≡ running
    → opened s.main ≡ true
runs_within_kick few r i lt e = ground (arith, (Reach-Inv few r).place i lt, e)
