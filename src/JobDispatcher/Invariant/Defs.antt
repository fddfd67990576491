-- ===== src/JobDispatcher/Invariant/Defs.antt =====
-- The invariant. A gate counts the workers that wait in it, until it is opened.
use turf.Prelude.{
  ℕ, ◌+◌, ◌^◌, ◌<◌, Bool, true, false, ◌&&◌, if◌then◌else◌, some, List, [], ◌∷◌, ◌≡◌, tally, ◌≤◌,
  arith,
}
use turf.JobDispatcher.System.{
  Job, Pc, MainPc, System, perform, start_ready, start_spin, running, end_ready, end_spin, idle,
  start_wait, start_store, main_run, end_wait, end_store, reset,
}

-- What thread `t` is to have run after these kicks.
unfoldable pub expected : ℕ → List Job → List ℕ
expected t [] = []
expected t (j ∷ l) = perform (some j) t (expected t l)

abbrev pub at_start : Pc → ℕ
at_start start_spin = 1
at_start _ = 0

abbrev pub at_end : Pc → ℕ
at_end end_spin = 1
at_end _ = 0

-- The start gate has been opened, and the end gate not yet.
abbrev pub opened : MainPc → Bool
opened main_run = true
opened end_wait = true
opened end_store = true
opened _ = false

-- The worker has run the action of this kick.
abbrev pub past : Pc → Bool
past end_ready = true
past end_spin = true
past _ = false

-- The caller has run the action itself.
abbrev pub own_past : MainPc → Bool
own_past end_wait = true
own_past end_store = true
own_past _ = false

abbrev Before : Pc → Type 0
Before end_spin = Unit
Before start_ready = Unit
Before start_spin = Unit
Before running = ⊥
Before end_ready = ⊥

abbrev Within : Pc → Type 0
Within start_spin = Unit
Within running = Unit
Within end_ready = Unit
Within end_spin = Unit
Within start_ready = ⊥

-- Where a worker may be.
abbrev pub Allowed : MainPc → Pc → Type 0
Allowed start_store p = p ≡ start_spin
Allowed end_store p = p ≡ end_spin
Allowed main_run p = Within p
Allowed end_wait p = Within p
Allowed idle p = Before p
Allowed start_wait p = Before p
Allowed reset p = Before p

pub record Inv (n : ℕ) (s : System) : Type 0 where
  pub few : n < 2 ^ 64
  pub place : (i : ℕ) → i < n → Allowed s.main (s.pc i)
  pub starts : s.start ≡ (if opened s.main then 0 else tally at_start n s.pc)
  pub ends : s.end ≡ (if opened s.main then tally at_end n s.pc else 0)
  pub ran :
      (i : ℕ)
      → i < n
      → s.runs (i + 1) ≡ (
          if opened s.main && past (s.pc i)
          then perform s.job (i + 1) (expected (i + 1) s.finished)
          else expected (i + 1) s.finished)
  pub own_ran :
      s.runs 0
      ≡ (if own_past s.main then perform s.job 0 (expected 0 s.finished) else expected 0 s.finished)

pub at_start-le : (p : Pc) → at_start p ≤ 1
at_start-le p = ground arith

pub at_end-le : (p : Pc) → at_end p ≤ 1
at_end-le p = ground arith
