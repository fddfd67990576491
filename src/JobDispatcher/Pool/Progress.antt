-- ===== src/JobDispatcher/Pool/Progress.antt =====
-- Which steps the threads of the pool have during a call of the dispatcher.
use mathlib.Core.Path.{subst}
use turf.Prelude.{
  ℕ, ◌+◌, ◌<◌, ◌≡◌, ◌≢◌, ◌⊎◌, inl, inr, refl, sym, ap, ◌∙◌, arith, dec_lt, tally, tally_short,
  update, Bool, Bool-cases, true, false,
}
use turf.JobDispatcher.Pool
use turf.JobDispatcher.Pool.{
  Pc, MainPc, System, Work, Call, Step, Reach, worker, caller, absent, start_ready, start_spin,
  checking, running, end_ready, end_spin, exited, idle, start_wait, start_store, main_run, end_wait,
  end_store, reset, resizing, growing, marking, exit_wait, exit_store, joining, settle_wait,
  settle_store, after,
}
use turf.JobDispatcher.Pool.Invariant.{Reach-Inv}
use turf.JobDispatcher.Pool.Invariant.Defs.{
  at_start, at_end, at_start-le, at_end-le, before, within, leaving, Inv,
}

-- The caller or a worker has come to another point.
abbrev pub Moved : System → System → Type 0
Moved s t = (t.main ≢ s.main) ⊎ ((i : ℕ) × (t.pc i ≢ s.pc i))

abbrev CanMove : System → Type 0
CanMove s = (t : System) × Step s t × Moved s t

worker_moves :
    {s t : System} (i : ℕ) (p q : Pc) → s.pc i ≡ p → Work s i p t → t.pc i ≡ q → q ≢ p → CanMove s
worker_moves {s} {t} i p q at w now differ =
    (t, worker i (rw at w), inr (i, λ same. differ (sym now ∙ same ∙ at)))

caller_moves : {s t : System} (p : MainPc) → s.main ≡ p → Call s p t → t.main ≢ p → CanMove s
caller_moves {s} {t} p at c differ =
    (t, caller (subst (λ q. Call s q t) (sym at) c), inl (λ same. differ (same ∙ at)))

update_here : {A : Type 0} (f : ℕ → A) (i : ℕ) (a : A) → update f i a i ≡ a
update_here f i a = ground arith

-- How far a loop over the workers is.
counter : MainPc → ℕ
counter (marking k n b) = k
counter (joining k n b) = k
counter _ = 0

after_growing : (a : Bool) (n : ℕ) (b : Bool) → after a ≢ growing n b
after_growing true n b e = absurd (cc)
after_growing false n b e = absurd (cc)

after_settling : (a b : Bool) → after a ≢ settle_store b
after_settling true b e = absurd (cc)
after_settling false b e = absurd (cc)

-- A worker that has not reached the start gate can go on.
before_start :
    {s : System} (i : ℕ) (p : Pc)
    → s.pc i ≡ p
    → at_start p ≡ 0
    → before p ≡ true
    → s.end ≡ 0
    → CanMove s
before_start {s} i start_ready at out ok unlocked =
    worker_moves i start_ready start_spin at Pool.start_add (update_here s.pc i start_spin)
      (λ e. cc)
before_start {s} i end_spin at out ok unlocked =
    worker_moves i end_spin start_ready at (Pool.end_leave unlocked)
      (update_here s.pc i start_ready) (λ e. cc)
before_start i start_spin at out ok unlocked = absurd (omega (arith, out))
before_start i absent at out ok unlocked = absurd (cc)
before_start i checking at out ok unlocked = absurd (cc)
before_start i running at out ok unlocked = absurd (cc)
before_start i end_ready at out ok unlocked = absurd (cc)
before_start i exited at out ok unlocked = absurd (cc)

checked : {s : System} (i : ℕ) → s.pc i ≡ checking → CanMove s
checked {s} i at = elim (Bool-cases (s.must_exit i)) [
  | inl out ↦
      worker_moves i checking exited at (Pool.leave out) (update_here s.pc i exited) (λ e. cc)
  | inr stay ↦
      worker_moves i checking running at (Pool.go_on stay) (update_here s.pc i running) (λ e. cc)
]

spun : {s : System} (i : ℕ) → s.pc i ≡ start_spin → s.start ≡ 0 → CanMove s
spun {s} i at unlocked =
    worker_moves i start_spin checking at (Pool.start_leave unlocked) (update_here s.pc i checking)
      (λ e. cc)

-- A worker that has not passed the end gate can go on.
before_end :
    {s : System} (i : ℕ) (p : Pc)
    → s.pc i ≡ p
    → at_end p ≡ 0
    → within p ≡ true
    → s.start ≡ 0
    → CanMove s
before_end i start_spin at out ok unlocked = spun i at unlocked
before_end i checking at out ok unlocked = checked i at
before_end {s} i running at out ok unlocked =
    worker_moves i running end_ready at Pool.run (update_here s.pc i end_ready) (λ e. cc)
before_end {s} i end_ready at out ok unlocked =
    worker_moves i end_ready end_spin at Pool.end_add (update_here s.pc i end_spin) (λ e. cc)
before_end i end_spin at out ok unlocked = absurd (omega (arith, out))
before_end i start_ready at out ok unlocked = absurd (cc)
before_end i absent at out ok unlocked = absurd (cc)
before_end i exited at out ok unlocked = absurd (cc)

-- A worker that is to exit can go on, or has exited.
before_join :
    {s : System} (i : ℕ) (p : Pc)
    → s.pc i ≡ p
    → leaving p ≡ true
    → s.start ≡ 0
    → (s.pc i ≡ exited) ⊎ CanMove s
before_join i exited at ok unlocked = inl at
before_join i start_spin at ok unlocked = inr (spun i at unlocked)
before_join i checking at ok unlocked = inr (checked i at)
before_join i absent at ok unlocked = absurd (cc)
before_join i start_ready at ok unlocked = absurd (cc)
before_join i running at ok unlocked = absurd (cc)
before_join i end_ready at ok unlocked = absurd (cc)
before_join i end_spin at ok unlocked = absurd (cc)

module _ {s : System} (inv : Inv s) where
  open inv use {gone, place, starts, ends, loops}

  -- Not all workers have reached the start gate.
  start_short :
      (s.start ≡ tally at_start s.workers s.pc)
      → s.end ≡ 0
      → s.start < s.workers
      → ((i : ℕ) → i < s.workers → before (s.pc i) ≡ true)
      → CanMove s
  start_short counted closed few places =
      let (i, lt, out) =
        tally_short at_start at_start-le s.workers s.pc (omega (arith, counted, few)) in
      before_start i (s.pc i) refl out (places i lt) closed

  -- Not all workers have reached the end gate.
  end_short :
      (s.end ≡ tally at_end s.workers s.pc)
      → s.start ≡ 0
      → s.end < s.workers
      → ((i : ℕ) → i < s.workers → within (s.pc i) ≡ true)
      → CanMove s
  end_short counted closed few places =
      let (i, lt, out) =
        tally_short at_end at_end-le s.workers s.pc (omega (arith, counted, few)) in
      before_end i (s.pc i) refl out (places i lt) closed

  -- A new thread stands where there was none.
  spawn_moves : (n : ℕ) (b : Bool) → s.main ≡ growing n b → s.workers < n → CanMove s
  spawn_moves n b at less =
      let t : System = record s {
        workers = s.workers + 1;
        must_exit = update s.must_exit s.workers false;
        pc = update s.pc s.workers start_ready;
      } in
      (
        t,
        caller (subst (λ q. Call s q t) (sym at) (Pool.spawn n b less)),
        inr (s.workers, λ same. ground (arith, same, gone s.workers (omega arith))),
      )

  progress : (p : MainPc) → s.main ≡ p → p ≢ idle → CanMove s
  unfolding counter
  progress idle at busy = absurd (busy refl)
  progress start_store at busy = caller_moves start_store at Pool.start_open (λ e. cc)
  progress main_run at busy = caller_moves main_run at Pool.own_run (λ e. cc)
  progress end_store at busy = caller_moves end_store at Pool.end_open (λ e. cc)
  progress reset at busy = caller_moves reset at Pool.reset_action (λ e. cc)
  progress start_wait at busy = elim (dec_lt s.start s.workers) [
    | no full ↦ caller_moves start_wait at (Pool.start_full (omega arith)) (λ e. cc)
    | yes few ↦
        start_short (ground (arith, starts, at)) (ground (arith, ends, at)) few
          (λ i h. ground (arith, place i h, at))
  ]
  progress end_wait at busy = elim (dec_lt s.end s.workers) [
    | no full ↦ caller_moves end_wait at (Pool.end_full (omega arith)) (λ e. cc)
    | yes few ↦
        end_short (ground (arith, ends, at)) (ground (arith, starts, at)) few
          (λ i h. ground (arith, place i h, at))
  ]
  progress (resizing n b) at busy = elim (dec_lt n s.workers) [
    | no more ↦ caller_moves (resizing n b) at (Pool.grow n b (omega arith)) (λ e. cc)
    | yes less ↦ caller_moves (resizing n b) at (Pool.shrink n b less) (λ e. cc)
  ]
  progress (growing n b) at busy = elim (dec_lt s.workers n) [
    | no done ↦ caller_moves (growing n b) at (Pool.grown n b (omega arith)) (after_growing b n b)
    | yes less ↦ spawn_moves n b at less
  ]
  progress (marking k n b) at busy = elim (dec_lt k s.workers) [
    | no done ↦ caller_moves (marking k n b) at (Pool.marked k n b (omega arith)) (λ e. cc)
    | yes less ↦
        caller_moves (marking k n b) at (Pool.mark k n b less) (λ e. omega (arith, ap counter e))
  ]
  progress (exit_wait n b) at busy = elim (dec_lt s.start s.workers) [
    | no full ↦ caller_moves (exit_wait n b) at (Pool.exit_full n b (omega arith)) (λ e. cc)
    | yes few ↦
        start_short (ground (arith, starts, at)) (ground (arith, ends, at)) few
          (λ i h. ground (arith, place i h, at))
  ]
  progress (exit_store n b) at busy =
      caller_moves (exit_store n b) at (Pool.exit_open n b) (λ e. cc)
  progress (joining k n b) at busy = elim (dec_lt k s.workers) [
    | no done ↦ caller_moves (joining k n b) at (Pool.joined k n b (omega arith)) (λ e. cc)
    | yes less ↦
        elim (before_join {s = s} k (s.pc k) refl (ground (arith, place k less, loops, at))
          (ground (arith, starts, at))) [
            | inl out ↦
                caller_moves (joining k n b) at (Pool.join k n b less out)
                  (λ e. omega (arith, ap counter e))
            | inr moves ↦ moves
          ]
  ]
  progress (settle_wait b) at busy = elim (dec_lt s.end s.workers) [
    | no full ↦ caller_moves (settle_wait b) at (Pool.settle_full b (omega arith)) (λ e. cc)
    | yes few ↦
        end_short (ground (arith, ends, at)) (ground (arith, starts, at)) few
          (λ i h. ground (arith, place i h, at))
  ]
  progress (settle_store b) at busy =
      caller_moves (settle_store b) at (Pool.settle_open b) (after_settling b b)

-- A call of `kick`, `kickOne`, `kickMulti` or `setNumSpawnedThreads` is never stuck: in every
-- reachable state in which one is under way, some thread has a step that takes a thread to another
-- point, so not all of them wait in a loop or in `join`.
pub call-Moved : {s : System} → Reach s → s.main ≢ idle → (t : System) × Step s t × Moved s t
call-Moved {s} r busy = progress (Reach-Inv r) s.main refl busy
