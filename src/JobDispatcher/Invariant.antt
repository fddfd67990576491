-- ===== src/JobDispatcher/Invariant.antt =====
-- Where the threads stand and what they have run, in every reachable state.
mod Defs
mod Workers
mod Caller
unfoldable pub use Defs.{expected}
pub use Defs.{at_start, at_end, at_start-le, at_end-le, opened, past, own_past, Allowed, Inv}
use Workers.{Work-Inv}
use Caller.{Call-Inv}
use turf.Prelude.{ℕ, ◌^◌, ◌<◌, refl, arith, tally-zero}
use turf.JobDispatcher.System.{System, Step, worker, caller, init, Reach, here, next, start_ready}

Inv-init : (n : ℕ) → n < 2 ^ 64 → Inv n init
unfolding expected
Inv-init n few = record {
  few = few;
  place = λ i lt. tt;
  starts = omega (arith, tally-zero at_start n (λ i. start_ready) (λ i lt. refl));
  ends = refl;
  ran = λ i lt. refl;
  own_ran = refl;
}

Step-Inv : {n : ℕ} {s t : System} → Step n s t → Inv n s → Inv n t
Step-Inv (worker i lt w) inv = Work-Inv inv i lt w refl
Step-Inv (caller c) inv = Call-Inv inv c refl

pub Reach-Inv : {n : ℕ} {s : System} → n < 2 ^ 64 → Reach n s → Inv n s
Reach-Inv {n} few here = Inv-init n few
Reach-Inv few (next r st) = Step-Inv st (Reach-Inv few r)
