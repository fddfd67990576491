-- ===== src/JobDispatcher/Invariant/Caller.antt =====
-- The invariant over a step of the caller.
use turf.Prelude.{
  ℕ, ◌+◌, ◌<◌, ◌≡◌, refl, arith, tally, tally_full, tally-zero, Option, none, some, List,
}
use turf.JobDispatcher.System.{
  Job, MainPc, System, Call, perform, finish, kick, start_busy, start_full, start_open, own_run,
  end_busy, end_full, end_open, reset_action,
}
use turf.JobDispatcher.Invariant.Defs.{expected, at_start, at_end, Inv, at_start-le, at_end-le}

expected-finish :
    (t : ℕ) (job : Option Job) (l : List Job)
    → expected t (finish job l) ≡ perform job t (expected t l)
unfolding expected
expected-finish t none l = refl
expected-finish t (some j) l = refl

module _ {n : ℕ} {s : System} (inv : Inv n s) where
  open inv use {few, place, starts, ends, ran, own_ran}

  pub Call-Inv : {m : MainPc} {t : System} → Call n s m t → s.main ≡ m → Inv n t
  Call-Inv (kick j) e = record {
    few = few;
    place = λ i h. ground (arith, place i h, e);
    starts = ground (arith, starts, e);
    ends = ground (arith, ends, e);
    ran = λ i h. ground (arith, ran i h, e);
    own_ran = ground (arith, own_ran, e);
  }
  Call-Inv (start_busy g) e = inv
  Call-Inv (start_full g) e =
      let all : (i : ℕ) → i < n → at_start (s.pc i) ≡ 1 =
        tally_full at_start at_start-le n s.pc (ground (arith, starts, e, g)) in
      record {
        few = few;
        place = λ i h. ground (arith, all i h);
        starts = ground (arith, starts, e);
        ends = ground (arith, ends, e);
        ran = λ i h. ground (arith, ran i h, e);
        own_ran = ground (arith, own_ran, e);
      }
  Call-Inv start_open e =
      let none_ended : tally at_end n s.pc ≡ 0 =
        tally-zero at_end n s.pc (λ i h. ground (arith, place i h, e)) in
      record {
        few = few;
        place = λ i h. ground (arith, place i h, e);
        starts = refl;
        ends = ground (arith, ends, e, none_ended);
        ran = λ i h. ground (arith, ran i h, place i h, e);
        own_ran = ground (arith, own_ran, e);
      }
  Call-Inv own_run e = record {
    few = few;
    place = λ i h. ground (arith, place i h, e);
    starts = ground (arith, starts, e);
    ends = ground (arith, ends, e);
    ran = λ i h. ground (arith, ran i h, e);
    own_ran = ground (arith, own_ran, e);
  }
  Call-Inv (end_busy g) e = inv
  Call-Inv (end_full g) e =
      let all : (i : ℕ) → i < n → at_end (s.pc i) ≡ 1 =
        tally_full at_end at_end-le n s.pc (ground (arith, ends, e, g)) in
      record {
        few = few;
        place = λ i h. ground (arith, all i h);
        starts = ground (arith, starts, e);
        ends = ground (arith, ends, e);
        ran = λ i h. ground (arith, ran i h, e);
        own_ran = ground (arith, own_ran, e);
      }
  Call-Inv end_open e =
      let none_started : tally at_start n s.pc ≡ 0 =
        tally-zero at_start n s.pc (λ i h. ground (arith, place i h, e)) in
      record {
        few = few;
        place = λ i h. ground (arith, place i h, e);
        starts = ground (arith, starts, e, none_started);
        ends = refl;
        ran =
            λ i h. ground (arith, ran i h, place i h, e, expected-finish (i + 1) s.job s.finished);
        own_ran = ground (arith, own_ran, e, expected-finish 0 s.job s.finished);
      }
  Call-Inv reset_action e = record {
    few = few;
    place = λ i h. ground (arith, place i h, e);
    starts = ground (arith, starts, e);
    ends = ground (arith, ends, e);
    ran = λ i h. ground (arith, ran i h, e);
    own_ran = ground (arith, own_ran, e);
  }
