-- ===== src/JobDispatcher/Pool/Invariant/Workers.antt =====
-- The invariant of the pool over a step of a worker.
use turf.Prelude.{
  ℕ, ◌≤◌, ◌<◌, ◌≡◌, refl, true, false, arith, update, dec_lt, tally, tally-update, tally-le,
}
use turf.JobDispatcher.Pool.{
  Pc, System, Work, start_add, start_stay, start_leave, leave, go_on, run, end_add, end_stay,
  end_leave, start_ready, start_spin, checking, running, end_ready, end_spin, exited, absent,
}
use turf.JobDispatcher.Pool.Invariant.Defs.{
  at_start, at_end, Inv, at_start-le, at_end-le, is_absent, opened, past, allowed,
}

module _ {s : System} (inv : Inv s) (i : ℕ) where
  open inv use {few, loops, gone, place, marks, starts, ends, no_job, same_job, ran, own_ran}

  alive : is_absent (s.pc i) ≡ false → i < s.workers
  alive h = elim (dec_lt i s.workers) [
    | yes lt ↦ lt
    | no ge ↦ absurd (ground (arith, gone i (omega (arith, ge)), h))
  ]

  room :
      (q : Pc)
      → (tally at_start s.workers (update s.pc i q) ≤ s.workers)
        × (tally at_end s.workers (update s.pc i q) ≤ s.workers)
  room q = (tally-le at_start at_start-le s.workers _, tally-le at_end at_end-le s.workers _)

  still_gone : (q : Pc) (lt : i < s.workers) (j : ℕ) → s.workers ≤ j → update s.pc i q j ≡ absent
  still_gone q lt j h = ground (arith, gone j h, h, lt)

  -- A worker that changes neither gate moves to a point where it may be.
  moved :
      (p q : Pc) (was : s.pc i ≡ p) (lt : i < s.workers) (same_start : at_start p ≡ at_start q)
      (same_end : at_end p ≡ at_end q) (may : allowed s.main i q ≡ true)
      (same_past : past p ≡ past q)
      → Inv (record s { pc = update s.pc i q })
  moved p q was lt same_start same_end may same_past = record {
    few = few;
    loops = loops;
    gone = still_gone q lt;
    place = λ j h. ground (arith, place j h, may);
    marks = marks;
    starts = ground (arith, starts, was, same_start, tally-update at_start s.workers s.pc i q lt);
    ends = ground (arith, ends, was, same_end, tally-update at_end s.workers s.pc i q lt);
    no_job = no_job;
    same_job = same_job;
    ran = λ j. ground (arith, ran j, was, same_past);
    own_ran = own_ran;
  }

  -- A worker that has seen the start gate open.
  start_opened :
      (was : s.pc i ≡ start_spin) (lt : i < s.workers) (zeroed : s.start ≡ 0) → opened s.main ≡ true
  start_opened was lt zeroed =
      ground (arith, starts, zeroed, was, tally-update at_start s.workers s.pc i checking lt)

  -- A worker that has seen the end gate open.
  end_closed :
      (was : s.pc i ≡ end_spin) (lt : i < s.workers) (zeroed : s.end ≡ 0) → opened s.main ≡ false
  end_closed was lt zeroed =
      ground (arith, ends, zeroed, was, tally-update at_end s.workers s.pc i start_ready lt)

  pub Work-Inv : {p : Pc} {t : System} → Work s i p t → s.pc i ≡ p → Inv t
  Work-Inv start_add was =
      let lt = alive (ground (arith, was)) in
      record {
        few = few;
        loops = loops;
        gone = still_gone start_spin lt;
        place = λ j h. ground (arith, place j h, place i lt, was);
        marks = marks;
        starts = ground (
          arith,
          place i lt,
          was,
          starts,
          few,
          tally-update at_start s.workers s.pc i start_spin lt,
          room start_spin,
        );
        ends = ground (arith, ends, was, tally-update at_end s.workers s.pc i start_spin lt);
        no_job = no_job;
        same_job = same_job;
        ran = λ j. ground (arith, ran j, was);
        own_ran = own_ran;
      }
  Work-Inv (start_stay g) was = inv
  Work-Inv (start_leave zeroed) was =
      let lt = alive (ground (arith, was)) in
      let open_now = start_opened was lt zeroed in
      record {
        few = few;
        loops = loops;
        gone = still_gone checking lt;
        place = λ j h. ground (arith, place j h, place i lt, was, open_now);
        marks = marks;
        starts = ground (arith, zeroed, open_now);
        ends = ground (arith, ends, was, tally-update at_end s.workers s.pc i checking lt);
        no_job = no_job;
        same_job = same_job;
        ran = λ j. ground (arith, ran j, was);
        own_ran = own_ran;
      }
  Work-Inv (leave out) was =
      let lt = alive (ground (arith, was)) in
      moved checking exited was lt refl refl (ground (arith, place i lt, marks i lt, was, out)) refl
  Work-Inv (go_on stay) was =
      let lt = alive (ground (arith, was)) in
      moved checking running was lt refl refl (ground (arith, place i lt, marks i lt, was, stay))
        refl
  Work-Inv run was =
      let lt = alive (ground (arith, was)) in
      record {
        few = few;
        loops = loops;
        gone = still_gone end_ready lt;
        place = λ j h. ground (arith, place j h, place i lt, was);
        marks = marks;
        starts = ground (arith, starts, was, tally-update at_start s.workers s.pc i end_ready lt);
        ends = ground (arith, ends, was, tally-update at_end s.workers s.pc i end_ready lt);
        no_job = no_job;
        same_job = same_job;
        ran = λ j. ground (arith, ran j, place i lt, was);
        own_ran = ground (arith, own_ran);
      }
  Work-Inv end_add was =
      let lt = alive (ground (arith, was)) in
      record {
        few = few;
        loops = loops;
        gone = still_gone end_spin lt;
        place = λ j h. ground (arith, place j h, place i lt, was);
        marks = marks;
        starts = ground (arith, starts, was, tally-update at_start s.workers s.pc i end_spin lt);
        ends = ground (
          arith,
          place i lt,
          was,
          ends,
          few,
          tally-update at_end s.workers s.pc i end_spin lt,
          room end_spin,
        );
        no_job = no_job;
        same_job = same_job;
        ran = λ j. ground (arith, ran j, was);
        own_ran = own_ran;
      }
  Work-Inv (end_stay g) was = inv
  Work-Inv (end_leave zeroed) was =
      let lt = alive (ground (arith, was)) in
      let closed_now = end_closed was lt zeroed in
      record {
        few = few;
        loops = loops;
        gone = still_gone start_ready lt;
        place = λ j h. ground (arith, place j h, place i lt, was, closed_now);
        marks = marks;
        starts = ground (arith, starts, was, tally-update at_start s.workers s.pc i start_ready lt);
        ends = ground (arith, zeroed, closed_now);
        no_job = no_job;
        same_job = same_job;
        ran = λ j. ground (arith, ran j, was, closed_now);
        own_ran = own_ran;
      }
