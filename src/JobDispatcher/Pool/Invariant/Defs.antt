-- ===== src/JobDispatcher/Pool/Invariant/Defs.antt =====
-- The invariant of the pool. A gate counts the workers that wait in it, until it is opened.
use turf.Prelude.{
  ℕ, ◌+◌, ◌^◌, ◌≤◌, ◌<◌, ltb, leb, Bool, true, false, ◌&&◌, not, if◌then◌else◌, Option, none, some,
  List, [], ◌∷◌, ◌≡◌, tally, arith,
}
use turf.JobDispatcher.System.{Job, perform}
use turf.JobDispatcher.Pool.{
  Pc, absent, start_ready, start_spin, checking, running, end_ready, end_spin, exited, MainPc,
  System, idle, start_store, main_run, end_wait, end_store, resizing, growing, marking, exit_wait,
  exit_store, joining, settle_wait, settle_store,
}

-- What thread `t` is to have run after these kicks: it takes part in those made while it existed.
unfoldable pub expected : ℕ → List (Job × ℕ) → List ℕ
expected t [] = []
expected t ((j, n) ∷ l) = if leb t n then perform (some j) t (expected t l) else expected t l

abbrev pub at_start : Pc → ℕ
at_start start_spin = 1
at_start _ = 0

abbrev pub at_end : Pc → ℕ
at_end end_spin = 1
at_end _ = 0

-- The start gate has been opened, and the end gate not yet.
abbrev pub opened : MainPc → Bool
opened main_run = true
opened end_wait = true
opened end_store = true
opened (joining k n b) = true
opened (settle_wait b) = true
opened (settle_store b) = true
opened _ = false

-- No action is set.
abbrev pub quiet : MainPc → Bool
quiet idle = true
quiet (resizing n b) = not b
quiet (growing n b) = not b
quiet (marking k n b) = true
quiet (exit_wait n b) = true
quiet (exit_store n b) = true
quiet (joining k n b) = true
quiet (settle_wait b) = true
quiet (settle_store b) = true
quiet _ = false

-- The worker has run the action of this kick.
abbrev pub past : Pc → Bool
past end_ready = true
past end_spin = true
past _ = false

-- The caller has run the action itself.
abbrev pub own_past : MainPc → Bool
own_past end_wait = true
own_past end_store = true
own_past _ = false

abbrev pub before : Pc → Bool
before end_spin = true
before start_ready = true
before start_spin = true
before _ = false

abbrev pub within : Pc → Bool
within start_spin = true
within checking = true
within running = true
within end_ready = true
within end_spin = true
within _ = false

abbrev pub leaving : Pc → Bool
leaving start_spin = true
leaving checking = true
leaving exited = true
leaving _ = false

abbrev pub is_start_spin : Pc → Bool
is_start_spin start_spin = true
is_start_spin _ = false

abbrev pub is_end_spin : Pc → Bool
is_end_spin end_spin = true
is_end_spin _ = false

abbrev pub is_absent : Pc → Bool
is_absent absent = true
is_absent _ = false

-- Where worker `i` may be.
abbrev pub allowed : MainPc → ℕ → Pc → Bool
allowed start_store i p = is_start_spin p
allowed (exit_store n b) i p = is_start_spin p
allowed end_store i p = is_end_spin p
allowed (settle_store b) i p = is_end_spin p
allowed main_run i p = within p
allowed end_wait i p = within p
allowed (settle_wait b) i p = within p
allowed (joining k n b) i p =
    if ltb i n then within p else (if ltb i k then is_absent p else leaving p)
allowed _ i p = before p

-- Whether `mustExit` of worker `i` is set.
abbrev pub to_leave : MainPc → ℕ → Bool
to_leave (marking k n b) i = leb n i && ltb i k
to_leave (exit_wait n b) i = leb n i
to_leave (exit_store n b) i = leb n i
to_leave (joining k n b) i = leb n i
to_leave _ i = false

-- The numbers that `setNumSpawnedThreads` has been called with, and its loops.
abbrev pub bounds : MainPc → ℕ → Bool
bounds (resizing n b) w = ltb (n + 1) (2 ^ 64)
bounds (growing n b) w = ltb (n + 1) (2 ^ 64) && leb w n
bounds (marking k n b) w = leb n k && leb k w && ltb n w
bounds (exit_wait n b) w = ltb n w
bounds (exit_store n b) w = ltb n w
bounds (joining k n b) w = leb n k && leb k w && ltb n w
bounds _ w = true

-- The action that a kick will still have when its number of threads is set.
abbrev pub held : MainPc → ℕ → Option Job → Option Job
held (resizing n b) w j = if ltb n w then none else j
held _ w j = j

pub record Inv (s : System) : Type 0 where
  pub few : s.workers + 1 < 2 ^ 64
  pub loops : bounds s.main s.workers ≡ true
  pub gone : (i : ℕ) → s.workers ≤ i → s.pc i ≡ absent
  pub place : (i : ℕ) → i < s.workers → allowed s.main i (s.pc i) ≡ true
  pub marks : (i : ℕ) → i < s.workers → s.must_exit i ≡ to_leave s.main i
  pub starts : s.start ≡ (if opened s.main then 0 else tally at_start s.workers s.pc)
  pub ends : s.end ≡ (if opened s.main then tally at_end s.workers s.pc else 0)
  pub no_job : quiet s.main ≡ true → s.job ≡ none
  pub same_job : s.made ≡ held s.main s.workers s.job
  pub ran :
      (i : ℕ)
      → s.runs (i + 1) ≡ (
          if opened s.main && past (s.pc i)
          then perform s.job (i + 1) (expected (i + 1) s.finished)
          else expected (i + 1) s.finished)
  pub own_ran :
      s.runs 0
      ≡ (if own_past s.main then perform s.job 0 (expected 0 s.finished) else expected 0 s.finished)

pub at_start-le : (p : Pc) → at_start p ≤ 1
at_start-le p = ground arith

pub at_end-le : (p : Pc) → at_end p ≤ 1
at_end-le p = ground arith
