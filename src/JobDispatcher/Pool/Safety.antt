-- ===== src/JobDispatcher/Pool/Safety.antt =====
-- What the threads of the pool have run, and which of them there are.
use turf.Prelude.{ℕ, zero, suc, ◌+◌, leb, true, ◌≡◌, ◌||◌, not, arith, dec_lt}
use turf.JobDispatcher.Pool.{System, Reach, idle, running}
use turf.JobDispatcher.Pool.Invariant.{Reach-Inv}
use turf.JobDispatcher.Pool.Invariant.Defs.{expected, is_absent, opened}

-- In every reachable state in which the caller is in no call, each thread index has run the actions
-- that were given to the kicks made while it existed, the caller's index 0 included, each action once,
-- in the order of the kicks, and only those whose filter lets it run; the actions of `kickMulti` on
-- fewer targets than there are threads are not among them. This holds through any number of calls that
-- start threads and let threads exit.
pub resized_kicks_complete :
    {s : System} → Reach s → s.main ≡ idle → (t : ℕ) → s.runs t ≡ expected t s.finished
resized_kicks_complete r e zero = ground (arith, (Reach-Inv r).own_ran, e)
resized_kicks_complete r e (suc i) =
    let k : suc i ≡ i + 1 = omega arith in rw k (ground (arith, (Reach-Inv r).ran i, e))

-- In every reachable state in which the caller is in no call, there is a thread for each worker index
-- below `m_threads.size() - 1` and for no other, and no `mustExit` of theirs is set.
pub threads_counted :
    {s : System}
    → Reach s
    → s.main ≡ idle
    → (i : ℕ)
    → (is_absent (s.pc i) ≡ leb s.workers i) × ((leb s.workers i || not (s.must_exit i)) ≡ true)
threads_counted {s} r e i =
    let inv = Reach-Inv r in
    elim (dec_lt i s.workers) [
      | yes lt ↦ (ground (arith, inv.place i lt, e), ground (arith, inv.marks i lt, e))
      | no ge ↦ (ground (arith, inv.gone i (omega (arith, ge)), ge), ground (arith, ge))
    ]

-- In every reachable state in which a worker is about to call the action and one is set, the caller
-- is in a kick, between the two gates.
pub runs_between_gates : {s : System} → Reach s → (i : ℕ) → s.pc i ≡ running → opened s.main ≡ true
runs_between_gates {s} r i e =
    let inv = Reach-Inv r in
    elim (dec_lt i s.workers) [
      | yes lt ↦ ground (arith, inv.place i lt, e)
      | no ge ↦ absurd (ground (arith, inv.gone i (omega (arith, ge)), e))
    ]
