-- ===== src/JobDispatcher/Pool/Invariant.antt =====
-- Where the threads of the pool stand and what they have run, in every reachable state.
pub mod Defs
mod Workers
mod Caller
use Defs.{expected, at_start, at_end, Inv}
use Workers.{Work-Inv}
use Caller.{Call-Inv}
use turf.Prelude.{ℕ, ◌^◌, ◌<◌, refl, arith, tally, tally-zero}
use turf.JobDispatcher.Pool.{System, Step, worker, caller, init, Reach, here, next, absent}

Inv-init : Inv init
unfolding expected
Inv-init = record {
  few = omega arith;
  loops = refl;
  gone = λ i h. refl;
  place = λ i h. absurd (omega (arith, h));
  marks = λ i h. refl;
  starts = omega (arith, tally-zero at_start 0 (λ i. absent) (λ i h. refl));
  ends = refl;
  no_job = λ h. refl;
  same_job = refl;
  ran = λ i. refl;
  own_ran = refl;
}

Step-Inv : {s t : System} → Step s t → Inv s → Inv t
Step-Inv (worker i w) inv = Work-Inv inv i w refl
Step-Inv (caller c) inv = Call-Inv inv c refl

pub Reach-Inv : {s : System} → Reach s → Inv s
Reach-Inv here = Inv-init
Reach-Inv (next r st) = Step-Inv st (Reach-Inv r)
