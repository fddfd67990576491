-- ===== src/JobDispatcher/Invariant/Workers.antt =====
-- The invariant over a step of a worker.
use turf.Prelude.{ℕ, ◌≤◌, ◌<◌, ◌≡◌, arith, update, tally, tally-update, tally-le}
use turf.JobDispatcher.System.{
  Pc, System, Work, start_add, start_stay, start_leave, run, end_add, end_stay, end_leave,
  start_ready, start_spin, running, end_ready, end_spin,
}
use turf.JobDispatcher.Invariant.Defs.{at_start, at_end, Inv, at_start-le, at_end-le}

module _ {n : ℕ} {s : System} (inv : Inv n s) (i : ℕ) (lt : i < n) where
  open inv use {few, place, starts, ends, ran, own_ran}

  room :
      (q : Pc) → (tally at_start n (update s.pc i q) ≤ n) × (tally at_end n (update s.pc i q) ≤ n)
  room q = (tally-le at_start at_start-le n _, tally-le at_end at_end-le n _)

  pub Work-Inv : {p : Pc} {t : System} → Work s i p t → s.pc i ≡ p → Inv n t
  Work-Inv start_add e = record {
    few = few;
    place = λ j h. ground (arith, place j h, place i lt, e);
    starts = ground (
      arith,
      place i lt,
      e,
      starts,
      few,
      tally-update at_start n s.pc i start_spin lt,
      room start_spin,
    );
    ends = ground (arith, place i lt, e, ends, tally-update at_end n s.pc i start_spin lt);
    ran = λ j h. ground (arith, ran j h, place i lt, e);
    own_ran = own_ran;
  }
  Work-Inv (start_stay g) e = inv
  Work-Inv (start_leave g) e = record {
    few = few;
    place = λ j h. ground (
      arith,
      place j h,
      place i lt,
      e,
      starts,
      ends,
      tally-update at_start n s.pc i running lt,
      tally-update at_end n s.pc i running lt,
    );
    starts = ground (
      arith,
      place i lt,
      e,
      starts,
      ends,
      few,
      tally-update at_start n s.pc i running lt,
      tally-update at_end n s.pc i running lt,
      room running,
    );
    ends = ground (
      arith,
      place i lt,
      e,
      starts,
      ends,
      few,
      tally-update at_start n s.pc i running lt,
      tally-update at_end n s.pc i running lt,
      room running,
    );
    ran = λ j h. ground (
      arith,
      ran j h,
      ran i lt,
      place i lt,
      place j h,
      e,
      starts,
      ends,
      tally-update at_start n s.pc i running lt,
      tally-update at_end n s.pc i running lt,
    );
    own_ran = own_ran;
  }
  Work-Inv run e = record {
    few = few;
    place = λ j h. ground (
      arith,
      place j h,
      place i lt,
      e,
      starts,
      ends,
      tally-update at_start n s.pc i end_ready lt,
      tally-update at_end n s.pc i end_ready lt,
    );
    starts = ground (
      arith,
      place i lt,
      e,
      starts,
      ends,
      few,
      tally-update at_start n s.pc i end_ready lt,
      tally-update at_end n s.pc i end_ready lt,
      room end_ready,
    );
    ends = ground (
      arith,
      place i lt,
      e,
      starts,
      ends,
      few,
      tally-update at_start n s.pc i end_ready lt,
      tally-update at_end n s.pc i end_ready lt,
      room end_ready,
    );
    ran = λ j h. ground (
      arith,
      ran j h,
      ran i lt,
      place i lt,
      place j h,
      e,
      starts,
      ends,
      tally-update at_start n s.pc i end_ready lt,
      tally-update at_end n s.pc i end_ready lt,
    );
    own_ran = ground (arith, own_ran);
  }
  Work-Inv end_add e = record {
    few = few;
    place = λ j h. ground (
      arith,
      place j h,
      place i lt,
      e,
      starts,
      ends,
      tally-update at_start n s.pc i end_spin lt,
      tally-update at_end n s.pc i end_spin lt,
    );
    starts = ground (
      arith,
      place i lt,
      e,
      starts,
      ends,
      few,
      tally-update at_start n s.pc i end_spin lt,
      tally-update at_end n s.pc i end_spin lt,
      room end_spin,
    );
    ends = ground (
      arith,
      place i lt,
      e,
      starts,
      ends,
      few,
      tally-update at_start n s.pc i end_spin lt,
      tally-update at_end n s.pc i end_spin lt,
      room end_spin,
    );
    ran = λ j h. ground (
      arith,
      ran j h,
      ran i lt,
      place i lt,
      place j h,
      e,
      starts,
      ends,
      tally-update at_start n s.pc i end_spin lt,
      tally-update at_end n s.pc i end_spin lt,
    );
    own_ran = own_ran;
  }
  Work-Inv (end_stay g) e = inv
  Work-Inv (end_leave g) e = record {
    few = few;
    place = λ j h. ground (
      arith,
      place j h,
      place i lt,
      e,
      starts,
      ends,
      tally-update at_start n s.pc i start_ready lt,
      tally-update at_end n s.pc i start_ready lt,
    );
    starts = ground (
      arith,
      place i lt,
      e,
      starts,
      ends,
      few,
      tally-update at_start n s.pc i start_ready lt,
      tally-update at_end n s.pc i start_ready lt,
      room start_ready,
    );
    ends = ground (
      arith,
      place i lt,
      e,
      starts,
      ends,
      few,
      tally-update at_start n s.pc i start_ready lt,
      tally-update at_end n s.pc i start_ready lt,
      room start_ready,
    );
    ran = λ j h. ground (
      arith,
      ran j h,
      ran i lt,
      place i lt,
      place j h,
      e,
      starts,
      ends,
      tally-update at_start n s.pc i start_ready lt,
      tally-update at_end n s.pc i start_ready lt,
    );
    own_ran = own_ran;
  }
