-- ===== src/JobDispatcher/Progress.antt =====
-- Which steps the threads of turf/extra/JobDispatcher.h have during a kick.
use mathlib.Core.Path.{subst}
use turf.Prelude.{
  ℕ, ◌<◌, ◌^◌, ◌≡◌, ◌≢◌, ◌⊎◌, inl, inr, refl, sym, ◌∙◌, arith, dec_lt, tally, tally_short, update,
}
use turf.JobDispatcher.System.{
  Pc, MainPc, System, Work, Step, Reach, worker, caller, start_ready, start_spin, running,
  end_ready, end_spin, idle, start_wait, start_store, main_run, end_wait, end_store, reset,
  start_add, start_leave, run, end_add, end_leave, start_full, start_open, own_run, end_full,
  end_open, reset_action, Call,
}
use turf.JobDispatcher.Invariant.{at_start, at_end, at_start-le, at_end-le, Allowed, Inv, Reach-Inv}

-- The caller or a worker has come to another point.
abbrev pub Moved : ℕ → System → System → Type 0
Moved n s t = (t.main ≢ s.main) ⊎ ((i : ℕ) × (i < n) × (t.pc i ≢ s.pc i))

abbrev CanMove : ℕ → System → Type 0
CanMove n s = (t : System) × Step n s t × Moved n s t

-- A step of a worker that leaves its point.
worker_moves :
    {n : ℕ} {s t : System} (i : ℕ) (p q : Pc)
    → i < n
    → s.pc i ≡ p
    → Work s i p t
    → t.pc i ≡ q
    → q ≢ p
    → CanMove n s
worker_moves {n} {s} {t} i p q lt at w now differ =
    (t, worker i lt (rw at w), inr (i, lt, λ same. differ (sym now ∙ same ∙ at)))

caller_moves :
    {n : ℕ} {s t : System} (p : MainPc) → s.main ≡ p → Call n s p t → t.main ≢ p → CanMove n s
caller_moves {n} {s} {t} p at c differ =
    (t, caller (subst (λ q. Call n s q t) (sym at) c), inl (λ same. differ (same ∙ at)))

update_here : {A : Type 0} (f : ℕ → A) (i : ℕ) (a : A) → update f i a i ≡ a
update_here f i a = ground arith

-- A worker that has not reached the start gate can go on.
before_start :
    {n : ℕ} {s : System} (i : ℕ) (p : Pc)
    → i < n
    → s.pc i ≡ p
    → at_start p ≡ 0
    → Allowed start_wait p
    → s.end ≡ 0
    → CanMove n s
before_start {n} {s} i start_ready lt at out ok unlocked =
    worker_moves i start_ready start_spin lt at start_add (update_here s.pc i start_spin)
      (λ e. ground (arith, e))
before_start {n} {s} i end_spin lt at out ok unlocked =
    worker_moves i end_spin start_ready lt at (end_leave unlocked) (update_here s.pc i start_ready)
      (λ e. ground (arith, e))
before_start i running lt at out ok unlocked = elim ok [ ]
before_start i end_ready lt at out ok unlocked = elim ok [ ]
before_start i start_spin lt at out ok unlocked = absurd (omega (arith, out))

-- A worker that has not passed the end gate can go on.
before_end :
    {n : ℕ} {s : System} (i : ℕ) (p : Pc)
    → i < n
    → s.pc i ≡ p
    → at_end p ≡ 0
    → Allowed end_wait p
    → s.start ≡ 0
    → CanMove n s
before_end {n} {s} i start_spin lt at out ok unlocked =
    worker_moves i start_spin running lt at (start_leave unlocked) (update_here s.pc i running)
      (λ e. ground (arith, e))
before_end {n} {s} i running lt at out ok unlocked =
    worker_moves i running end_ready lt at run (update_here s.pc i end_ready)
      (λ e. ground (arith, e))
before_end {n} {s} i end_ready lt at out ok unlocked =
    worker_moves i end_ready end_spin lt at end_add (update_here s.pc i end_spin)
      (λ e. ground (arith, e))
before_end i start_ready lt at out ok unlocked = elim ok [ ]
before_end i end_spin lt at out ok unlocked = absurd (omega (arith, out))

progress : {n : ℕ} {s : System} → Inv n s → (p : MainPc) → s.main ≡ p → p ≢ idle → CanMove n s
progress inv idle at busy = absurd (busy refl)
progress inv start_store at busy = caller_moves start_store at start_open (λ e. ground (arith, e))
progress inv main_run at busy = caller_moves main_run at own_run (λ e. ground (arith, e))
progress inv end_store at busy = caller_moves end_store at end_open (λ e. ground (arith, e))
progress inv reset at busy = caller_moves reset at reset_action (λ e. ground (arith, e))
progress {n} {s} inv start_wait at busy = elim (dec_lt s.start n) [
  | no full ↦ caller_moves start_wait at (start_full (omega arith)) (λ e. ground (arith, e))
  | yes few ↦
      let counted : s.start ≡ tally at_start n s.pc = ground (arith, inv.starts, at) in
      let closed : s.end ≡ 0 = ground (arith, inv.ends, at) in
      let (i, lt, out) = tally_short at_start at_start-le n s.pc (omega (arith, counted)) in
      before_start i (s.pc i) lt refl out (rw at at (inv.place i lt)) closed
]
progress {n} {s} inv end_wait at busy = elim (dec_lt s.end n) [
  | no full ↦ caller_moves end_wait at (end_full (omega arith)) (λ e. ground (arith, e))
  | yes few ↦
      let counted : s.end ≡ tally at_end n s.pc = ground (arith, inv.ends, at) in
      let closed : s.start ≡ 0 = ground (arith, inv.starts, at) in
      let (i, lt, out) = tally_short at_end at_end-le n s.pc (omega (arith, counted)) in
      before_end i (s.pc i) lt refl out (rw at at (inv.place i lt)) closed
]

-- A kick of fewer than `2 ^ 64` workers is never stuck: in every reachable state in which it is
-- under way, some thread has a step that takes it to another point, so not all of them wait in a
-- loop.
pub kick-Moved :
    {n : ℕ} {s : System}
    → n < 2 ^ 64
    → Reach n s
    → s.main ≢ idle
    → (t : System) × Step n s t × Moved n s t
kick-Moved {n} {s} few r busy = progress (Reach-Inv few r) s.main refl busy
