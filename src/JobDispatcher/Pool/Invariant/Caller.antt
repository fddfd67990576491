-- ===== src/JobDispatcher/Pool/Invariant/Caller.antt =====
-- The invariant of the pool over a step of the caller.
use turf.Prelude.{
  ℕ, ◌+◌, ◌≤◌, ◌<◌, leb, if◌then◌else◌, ◌≡◌, ◌⊎◌, inl, inr, refl, Bool, true, false, arith, dec_lt,
  tally, tally_full, tally-extend, tally_cut, ◌-◌, tally-zero, tally-update, Option, none, some,
  List, ap, ◌∙◌, sym,
}
use mathlib.Core.Path.{subst}
use turf.JobDispatcher.System.{Job, perform}
use turf.JobDispatcher.Pool
use turf.JobDispatcher.Pool.{
  Pc, MainPc, System, Call, finish, to, after, absent, start_ready, start_spin, end_spin, exited,
  idle, start_wait, start_store, main_run, end_wait, end_store, reset, resizing, growing, marking,
  exit_wait, exit_store, joining, settle_wait, settle_store,
}
use turf.JobDispatcher.Pool.Invariant.Defs.{
  expected, at_start, at_end, Inv, at_start-le, at_end-le, opened, quiet, own_past, allowed,
  to_leave, bounds, held,
}

expected-finish :
    (t n : ℕ) (job : Option Job) (l : List (Job × ℕ))
    → expected t (finish job n l) ≡ (if leb t n then perform job t (expected t l) else expected t l)
unfolding expected
expected-finish t n none l = ground arith
expected-finish t n (some j) l = refl

module _ {s : System} (inv : Inv s) where
  open inv use {few, loops, gone, place, marks, starts, ends, no_job, same_job, ran, own_ran}

  -- The caller moves on, and may set or take back the action; no gate is opened.
  phase :
      (m : MainPc) (j k : Option Job) (same : k ≡ held m s.workers j)
      (loop : bounds m s.workers ≡ true)
      (places : (i : ℕ) → i < s.workers → allowed m i (s.pc i) ≡ true)
      (same_marks : (i : ℕ) → i < s.workers → to_leave m i ≡ to_leave s.main i)
      (same_open : opened m ≡ opened s.main) (same_own : own_past m ≡ own_past s.main)
      (job : (j ≡ s.job) ⊎ ((opened s.main ≡ false) × (own_past s.main ≡ false)))
      (no_job' : quiet m ≡ true → j ≡ none)
      → Inv (record s { main = m; job = j; made = k })
  phase m j k same loop places same_marks same_open same_own job no_job' = record {
    few = few;
    loops = loop;
    gone = gone;
    place = places;
    marks = λ i h. ground (arith, marks i h, same_marks i h);
    starts = ground (arith, starts, same_open);
    ends = ground (arith, ends, same_open);
    no_job = no_job';
    same_job = same;
    ran = λ i. ground (arith, ran i, same_open, job);
    own_ran = ground (arith, own_ran, same_own, job);
  }

  -- All workers wait in the start gate.
  all_start :
      (closed : opened s.main ≡ false) (full : s.workers ≤ s.start) (i : ℕ)
      → i < s.workers
      → s.pc i ≡ start_spin
  all_start closed full i h =
      let one : at_start (s.pc i) ≡ 1 =
        tally_full at_start at_start-le s.workers s.pc (ground (arith, starts, closed, full)) i h in
      ground (arith, one)

  -- All workers wait in the end gate.
  all_end :
      (open_now : opened s.main ≡ true) (full : s.workers ≤ s.end) (i : ℕ)
      → i < s.workers
      → s.pc i ≡ end_spin
  all_end open_now full i h =
      let one : at_end (s.pc i) ≡ 1 =
        tally_full at_end at_end-le s.workers s.pc (ground (arith, ends, open_now, full)) i h in
      ground (arith, one)

  -- A gate that nobody waits in.
  no_end :
      (nobody : (i : ℕ) → i < s.workers → at_end (s.pc i) ≡ 0) → tally at_end s.workers s.pc ≡ 0
  no_end nobody = tally-zero at_end s.workers s.pc nobody

  no_start :
      (nobody : (i : ℕ) → i < s.workers → at_start (s.pc i) ≡ 0) → tally at_start s.workers s.pc ≡ 0
  no_start nobody = tally-zero at_start s.workers s.pc nobody

  -- The start gate is opened, with all workers in it.
  open_start :
      (m : MainPc) (closed : opened s.main ≡ false) (own : own_past s.main ≡ false)
      (all : (i : ℕ) → i < s.workers → s.pc i ≡ start_spin) (loop : bounds m s.workers ≡ true)
      (places : (i : ℕ) → i < s.workers → allowed m i start_spin ≡ true)
      (same_marks : (i : ℕ) → i < s.workers → to_leave m i ≡ to_leave s.main i)
      (open_now : opened m ≡ true) (not_own : own_past m ≡ false)
      (no_job' : quiet m ≡ true → s.job ≡ none) (same : s.made ≡ held m s.workers s.job)
      → Inv (record s { start = 0; main = m })
  open_start m closed own all loop places same_marks open_now not_own no_job' same =
      let nobody = no_end (λ i h. ground (arith, all i h)) in
      record {
        few = few;
        loops = loop;
        gone = gone;
        place = λ i h. ground (arith, all i h, places i h);
        marks = λ i h. ground (arith, marks i h, same_marks i h);
        starts = ground (arith, open_now);
        ends = ground (arith, ends, closed, open_now, nobody);
        no_job = no_job';
        same_job = same;
        ran = λ i. elim (dec_lt i s.workers) [
          | yes lt ↦ ground (arith, ran i, all i lt, closed)
          | no ge ↦ ground (arith, ran i, gone i (omega (arith, ge)), closed)
        ];
        own_ran = ground (arith, own_ran, own, not_own);
      }

  -- The end gate is opened, with all workers in it; `l` has the kick, where there was an action.
  open_end :
      (m : MainPc) (open_now : opened s.main ≡ true)
      (all : (i : ℕ) → i < s.workers → s.pc i ≡ end_spin) (loop : bounds m s.workers ≡ true)
      (places : (i : ℕ) → i < s.workers → allowed m i end_spin ≡ true)
      (same_marks : (i : ℕ) → i < s.workers → to_leave m i ≡ to_leave s.main i)
      (closed : opened m ≡ false) (not_own : own_past m ≡ false)
      (no_job' : quiet m ≡ true → s.job ≡ none) (own : (own_past s.main ≡ true) ⊎ (s.job ≡ none))
      (kept : s.made ≡ s.job) (same : s.made ≡ held m s.workers s.job)
      → Inv (record s { end = 0; main = m; finished = finish s.made s.workers s.finished })
  open_end m open_now all loop places same_marks closed not_own no_job' own kept same =
      let nobody = no_start (λ i h. ground (arith, all i h)) in
      record {
        few = few;
        loops = loop;
        gone = gone;
        place = λ i h. ground (arith, all i h, places i h);
        marks = λ i h. ground (arith, marks i h, same_marks i h);
        starts = ground (arith, starts, closed, open_now, nobody);
        ends = ground (arith, closed);
        no_job = no_job';
        same_job = same;
        ran = λ i. elim (dec_lt i s.workers) [
          | yes lt ↦ ground (
            arith,
            ran i,
            all i lt,
            closed,
            open_now,
            kept,
            expected-finish (i + 1) s.workers s.made s.finished,
          )
          | no ge ↦ ground (
            arith,
            ran i,
            gone i (omega (arith, ge)),
            closed,
            ge,
            kept,
            expected-finish (i + 1) s.workers s.made s.finished,
          )
        ];
        own_ran =
            ground
              (arith, own_ran, own, not_own, kept, expected-finish 0 s.workers s.made s.finished);
      }

  -- The end gate is opened after workers have left.
  settled :
      (m : MainPc) (b : Bool) (e : s.main ≡ settle_store b) (loop : bounds m s.workers ≡ true)
      (places : (i : ℕ) → i < s.workers → allowed m i end_spin ≡ true)
      (no_marks : (i : ℕ) → i < s.workers → to_leave m i ≡ false) (closed : opened m ≡ false)
      (not_own : own_past m ≡ false) (plain : held m s.workers s.job ≡ s.job)
      → Inv (record s { end = 0; main = m })
  settled m b e loop places no_marks closed not_own plain =
      let idle_job : s.job ≡ none = no_job (ground (arith, e)) in
      let kept : s.made ≡ s.job = ground (arith, same_job, e) in
      let same : finish s.made s.workers s.finished ≡ s.finished =
        ap (λ (j : Option Job). finish j s.workers s.finished) (kept ∙ idle_job) in
      subst (λ l. Inv (record s { end = 0; main = m; finished = l })) same
        (open_end m (ground (arith, e)) (λ i h. ground (arith, place i h, e)) loop places
          (λ i h. ground (arith, no_marks i h, e)) closed not_own (λ h. idle_job) (inr idle_job)
          kept (kept ∙ sym plain))

  -- The workers that have left are dropped.
  ends_cut :
      (n : ℕ) (le : n ≤ s.workers) (left : (i : ℕ) → n ≤ i → i < s.workers → at_end (s.pc i) ≡ 0)
      → tally at_end s.workers s.pc ≡ tally at_end n s.pc
  ends_cut n le left =
      let e : s.workers ≡ n + (s.workers - n) = omega (arith, le) in
      ap (λ (w : ℕ). tally at_end w s.pc) e
      ∙ tally_cut at_end (s.workers - n) n s.pc (λ i ge lt. left i ge (omega (arith, lt, le)))

  pub Call-Inv : {m : MainPc} {t : System} → Call s m t → s.main ≡ m → Inv t
  Call-Inv (Pool.kick j) e =
      phase start_wait (some j) (some j) refl (ground (arith, loops, e))
        (λ i h. ground (arith, place i h, e)) (λ i h. ground (arith, e)) (ground (arith, e))
        (ground (arith, e)) (inr (ground (arith, e), ground (arith, e))) (λ h. absurd (cc))
  Call-Inv (Pool.kick_resized j n word) e =
      phase (resizing n true) (some j) _ refl (ground (arith, word))
        (λ i h. ground (arith, place i h, e)) (λ i h. ground (arith, e)) (ground (arith, e))
        (ground (arith, e)) (inr (ground (arith, e), ground (arith, e))) (λ h. absurd (cc))
  Call-Inv (Pool.set_num n word) e =
      phase (resizing n false) s.job s.made (ground (arith, same_job, no_job, e))
        (ground (arith, word)) (λ i h. ground (arith, place i h, e)) (λ i h. ground (arith, e))
        (ground (arith, e)) (ground (arith, e)) (inl refl) (λ h. ground (arith, no_job, h, e))
  Call-Inv (Pool.start_busy g) e = inv
  Call-Inv (Pool.start_full g) e =
      phase start_store s.job s.made (ground (arith, same_job, e)) (ground (arith, loops, e))
        (λ i h. ground (arith, all_start (ground (arith, e)) g i h)) (λ i h. ground (arith, e))
        (ground (arith, e)) (ground (arith, e)) (inl refl) (λ h. absurd (cc))
  Call-Inv Pool.start_open e =
      open_start main_run (ground (arith, e)) (ground (arith, e))
        (λ i h. ground (arith, place i h, e)) refl (λ i h. refl) (λ i h. ground (arith, e)) refl
        refl (λ h. absurd (cc)) (ground (arith, same_job, e))
  Call-Inv Pool.own_run e = record {
    few = few;
    loops = refl;
    gone = gone;
    place = λ i h. ground (arith, place i h, e);
    marks = λ i h. ground (arith, marks i h, e);
    starts = ground (arith, starts, e);
    ends = ground (arith, ends, e);
    no_job = λ h. absurd (cc);
    same_job = ground (arith, same_job, e);
    ran = λ i. ground (arith, ran i, e);
    own_ran = ground (arith, own_ran, e);
  }
  Call-Inv (Pool.end_busy g) e = inv
  Call-Inv (Pool.end_full g) e =
      phase end_store s.job s.made (ground (arith, same_job, e)) (ground (arith, loops, e))
        (λ i h. ground (arith, all_end (ground (arith, e)) g i h)) (λ i h. ground (arith, e))
        (ground (arith, e)) (ground (arith, e)) (inl refl) (λ h. absurd (cc))
  Call-Inv Pool.end_open e =
      open_end reset (ground (arith, e)) (λ i h. ground (arith, place i h, e)) refl (λ i h. refl)
        (λ i h. ground (arith, e)) refl refl (λ h. absurd (cc)) (inl (ground (arith, e)))
        (ground (arith, same_job, e)) (ground (arith, same_job, e))
  Call-Inv Pool.reset_action e =
      phase idle none none refl (ground (arith, loops, e)) (λ i h. ground (arith, place i h, e))
        (λ i h. ground (arith, e)) (ground (arith, e)) (ground (arith, e))
        (inr (ground (arith, e), ground (arith, e))) (λ h. refl)
  Call-Inv (Pool.grow n b g) e =
      phase (growing n b) s.job s.made (ground (arith, same_job, e, g))
        (ground (arith, loops, e, g)) (λ i h. ground (arith, place i h, e))
        (λ i h. ground (arith, e)) (ground (arith, e)) (ground (arith, e)) (inl refl)
        (λ h. ground (arith, no_job, h, e))
  Call-Inv (Pool.spawn n b g) e = record {
    few = ground (arith, loops, e, g);
    loops = ground (arith, loops, e, g);
    gone = λ i h. ground (arith, gone i (omega (arith, h)), h);
    place = λ i h. ground (arith, place i, h, e);
    marks = λ i h. ground (arith, marks i, h, e);
    starts = ground (arith, starts, e, tally-extend at_start s.workers s.pc start_ready);
    ends = ground (arith, ends, e);
    no_job = no_job;
    same_job = ground (arith, same_job, e);
    ran = λ i. ground (arith, ran i, e);
    own_ran = own_ran;
  }
  Call-Inv (Pool.grown n true g) e =
      phase start_wait s.job s.made (ground (arith, same_job, e)) (refl)
        (λ i h. ground (arith, place i h, e)) (λ i h. ground (arith, e)) (ground (arith, e))
        (ground (arith, e)) (inl refl) (λ h. absurd (cc))
  Call-Inv (Pool.grown n false g) e =
      phase idle s.job s.made (ground (arith, same_job, e)) (refl)
        (λ i h. ground (arith, place i h, e)) (λ i h. ground (arith, e)) (ground (arith, e))
        (ground (arith, e)) (inl refl) (λ h. ground (arith, no_job, h, e))
  Call-Inv (Pool.shrink n b g) e =
      phase (marking n n b) none s.made (ground (arith, same_job, e, g)) (ground (arith, g))
        (λ i h. ground (arith, place i h, e)) (λ i h. ground (arith, e)) (ground (arith, e))
        (ground (arith, e)) (inr (ground (arith, e), ground (arith, e))) (λ h. refl)
  Call-Inv (Pool.mark k n b g) e = record {
    few = few;
    loops = ground (arith, loops, e, g);
    gone = gone;
    place = λ i h. ground (arith, place i h, e);
    marks = λ i h. ground (arith, marks i h, loops, e);
    starts = ground (arith, starts, e);
    ends = ground (arith, ends, e);
    no_job = λ h. ground (arith, no_job, e);
    same_job = ground (arith, same_job, e);
    ran = λ i. ground (arith, ran i, e);
    own_ran = ground (arith, own_ran, e);
  }
  Call-Inv (Pool.marked k n b g) e =
      phase (exit_wait n b) s.job s.made (ground (arith, same_job, e)) (ground (arith, loops, e))
        (λ i h. ground (arith, place i h, e)) (λ i h. ground (arith, e, g, h)) (ground (arith, e))
        (ground (arith, e)) (inl refl) (λ h. ground (arith, no_job, h, e))
  Call-Inv (Pool.exit_busy n b g) e = inv
  Call-Inv (Pool.exit_full n b g) e =
      phase (exit_store n b) s.job s.made (ground (arith, same_job, e)) (ground (arith, loops, e))
        (λ i h. ground (arith, all_start (ground (arith, e)) g i h)) (λ i h. ground (arith, e))
        (ground (arith, e)) (ground (arith, e)) (inl refl) (λ h. ground (arith, no_job, h, e))
  Call-Inv (Pool.exit_open n b) e =
      open_start (joining n n b) (ground (arith, e)) (ground (arith, e))
        (λ i h. ground (arith, place i h, e)) (ground (arith, loops, e)) (λ i h. ground arith)
        (λ i h. ground (arith, e)) refl refl (λ h. ground (arith, no_job, e))
        (ground (arith, same_job, e))
  Call-Inv (Pool.join_wait k n b g w) e = inv
  Call-Inv (Pool.join k n b g w) e = record {
    few = few;
    loops = ground (arith, loops, e, g);
    gone = λ i h. ground (arith, gone i h, h);
    place = λ i h. ground (arith, place i h, loops, e);
    marks = λ i h. ground (arith, marks i h, e);
    starts = ground (arith, starts, e);
    ends = ground (arith, ends, e, w, tally-update at_end s.workers s.pc k absent g);
    no_job = λ h. ground (arith, no_job, e);
    same_job = ground (arith, same_job, e);
    ran = λ i. ground (arith, ran i, e, w);
    own_ran = ground (arith, own_ran, e);
  }
  Call-Inv (Pool.joined k n b g) e =
      let n_lt : n < s.workers = ground (arith, loops, e) in
      let left : (i : ℕ) → n ≤ i → i < s.workers → s.pc i ≡ absent =
        λ i ge lt. ground (arith, place i lt, e, g, ge, lt) in
      record {
        few = omega (arith, few, n_lt);
        loops = refl;
        gone = λ i h. elim (dec_lt i s.workers) [
          | yes lt ↦ left i h lt
          | no ge ↦ gone i (omega (arith, ge))
        ];
        place = λ i h. ground (arith, place i (omega (arith, h, n_lt)), h, e);
        marks = λ i h. ground (arith, marks i (omega (arith, h, n_lt)), h, e);
        starts = ground (arith, starts, e);
        ends = ground (
          arith,
          ends,
          e,
          ends_cut n (omega (arith, n_lt)) (λ i ge lt. ground (arith, left i ge lt)),
        );
        no_job = λ h. ground (arith, no_job, e);
        same_job = ground (arith, same_job, e);
        ran = λ i. ground (arith, ran i, e);
        own_ran = ground (arith, own_ran, e);
      }
  Call-Inv (Pool.settle_busy b g) e = inv
  Call-Inv (Pool.settle_full b g) e =
      phase (settle_store b) s.job s.made (ground (arith, same_job, e)) (refl)
        (λ i h. ground (arith, all_end (ground (arith, e)) g i h)) (λ i h. ground (arith, e))
        (ground (arith, e)) (ground (arith, e)) (inl refl) (λ h. ground (arith, no_job, h, e))
  Call-Inv (Pool.settle_open true) e =
      settled start_wait true e refl (λ i h. refl) (λ i h. refl) refl refl refl
  Call-Inv (Pool.settle_open false) e =
      settled idle false e refl (λ i h. refl) (λ i h. refl) refl refl refl
