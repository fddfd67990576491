-- ===== src/JobDispatcher/Pool.antt =====
-- The threads of a dispatcher with `setNumSpawnedThreads`: workers are started, run kicks, and exit, an
-- access to a gate or to `mustExit` at a time. The stores to `m_threadFilter`, `m_action` and `m_param`
-- are one step, since no worker reads them outside of a kick. Thread 0 is the caller; worker `i` is the
-- thread of index `i + 1`.
pub mod Invariant
pub mod Safety
pub mod Progress
mod Tests
use turf.Prelude.{
  if◌then◌else◌, ltb, ℕ, ◌+◌, ◌%◌, ◌^◌, ◌≤◌, ◌<◌, Bool, true, false, Option, none, some, List, [],
  ◌∷◌, ◌≡◌, ◌≢◌, update,
}
use turf.JobDispatcher.System.{Job, perform}

-- `threadRun`: in `m_startGate.waitForKick()` before the increment and in its loop; at the test of
-- `mustExit`; past it; then in `m_endGate`. A thread that has returned is joined, and its slot is
-- absent again.
pub data Pc : Type 0 where
  absent start_ready start_spin checking running end_ready end_spin exited : Pc

-- The caller outside of a call, and in a kick: in `m_startGate.kick` in its loop and before the
-- store; before its own call of the action; the same two points in `m_endGate.kick`; before
-- `resetAction()`. Then `setNumSpawnedThreads` for `n` workers: at its test; in the loop that starts
-- threads; in the loop that sets `mustExit`, at worker `k`; in `m_startGate.kick`; in the loop of
-- `join`, at worker `k`; in `m_endGate.kick`. The flag tells whether a kick follows.
pub data MainPc : Type 0 where
  idle start_wait start_store main_run end_wait end_store reset : MainPc
  resizing growing : ℕ → Bool → MainPc
  marking : ℕ → ℕ → Bool → MainPc
  exit_wait exit_store : ℕ → Bool → MainPc
  joining : ℕ → ℕ → Bool → MainPc
  settle_wait settle_store : Bool → MainPc

-- `workers` is `m_threads.size() - 1`; `runs t` lists the actions that thread `t` has run, the last
-- one first. `made` is the action that the kick under way was given, none where that is a `kickMulti`
-- on fewer targets than there are threads; `finished` lists the actions of the kicks that have passed
-- the end gate, with the workers at that time.
pub record System : Type 0 where
  pub start : ℕ
  pub end : ℕ
  pub job : Option Job
  pub made : Option Job
  pub main : MainPc
  pub workers : ℕ
  pub must_exit : ℕ → Bool
  pub pc : ℕ → Pc
  pub runs : ℕ → List ℕ
  pub finished : List (Job × ℕ)

abbrev pub finish : Option Job → ℕ → List (Job × ℕ) → List (Job × ℕ)
finish none n l = l
finish (some j) n l = (j, n) ∷ l

abbrev pub to : System → MainPc → System
to s m = record s { main = m }

-- After `setNumSpawnedThreads`.
abbrev pub after : Bool → MainPc
after true = start_wait
after false = idle

-- One step of worker `i`.
pub data Work (s : System) (i : ℕ) : Pc → System → Type 0 where
  start_add :
      Work s i start_ready
        (record s { start = (s.start + 1) % 2 ^ 64; pc = update s.pc i start_spin })
  start_stay : 0 < s.start → Work s i start_spin s
  start_leave : s.start ≡ 0 → Work s i start_spin (record s { pc = update s.pc i checking })
  leave : s.must_exit i ≡ true → Work s i checking (record s { pc = update s.pc i exited })
  go_on : s.must_exit i ≡ false → Work s i checking (record s { pc = update s.pc i running })
  run : Work s i running (record s {
    pc = update s.pc i end_ready;
    runs = update s.runs (i + 1) (perform s.job (i + 1) (s.runs (i + 1)));
  })
  end_add :
      Work s i end_ready (record s { end = (s.end + 1) % 2 ^ 64; pc = update s.pc i end_spin })
  end_stay : 0 < s.end → Work s i end_spin s
  end_leave : s.end ≡ 0 → Work s i end_spin (record s { pc = update s.pc i start_ready })

-- One step of the caller; `kick_resized` is `kickOne` on an index that has no thread yet, or
-- `kickMulti`. The number of threads, `n + 1`, is a word.
pub data Call (s : System) : MainPc → System → Type 0 where
  kick : (j : Job) → Call s idle (record s { job = some j; made = some j; main = start_wait })
  kick_resized :
      (j : Job) (n : ℕ)
      → n + 1 < 2 ^ 64
      → Call s idle (record s {
        job = some j;
        made = if ltb n s.workers then none else some j;
        main = resizing n true;
      })
  set_num : (n : ℕ) → n + 1 < 2 ^ 64 → Call s idle (to s (resizing n false))
  start_busy : s.start < s.workers → Call s start_wait s
  start_full : s.workers ≤ s.start → Call s start_wait (to s start_store)
  start_open : Call s start_store (record s { start = 0; main = main_run })
  own_run :
      Call s main_run
        (record s { runs = update s.runs 0 (perform s.job 0 (s.runs 0)); main = end_wait })
  end_busy : s.end < s.workers → Call s end_wait s
  end_full : s.workers ≤ s.end → Call s end_wait (to s end_store)
  end_open :
      Call s end_store
        (record s { end = 0; main = reset; finished = finish s.made s.workers s.finished })
  reset_action : Call s reset (record s { job = none; made = none; main = idle })
  grow : (n : ℕ) (b : Bool) → s.workers ≤ n → Call s (resizing n b) (to s (growing n b))
  spawn :
      (n : ℕ) (b : Bool)
      → s.workers < n
      → Call s (growing n b) (record s {
        workers = s.workers + 1;
        must_exit = update s.must_exit s.workers false;
        pc = update s.pc s.workers start_ready;
      })
  grown : (n : ℕ) (b : Bool) → n ≤ s.workers → Call s (growing n b) (to s (after b))
  shrink :
      (n : ℕ) (b : Bool)
      → n < s.workers
      → Call s (resizing n b) (record s { job = none; main = marking n n b })
  mark :
      (k n : ℕ) (b : Bool)
      → k < s.workers
      → Call s
          (marking k n b)
          (record s { must_exit = update s.must_exit k true; main = marking (k + 1) n b })
  marked : (k n : ℕ) (b : Bool) → s.workers ≤ k → Call s (marking k n b) (to s (exit_wait n b))
  exit_busy : (n : ℕ) (b : Bool) → s.start < s.workers → Call s (exit_wait n b) s
  exit_full :
      (n : ℕ) (b : Bool) → s.workers ≤ s.start → Call s (exit_wait n b) (to s (exit_store n b))
  exit_open :
      (n : ℕ) (b : Bool) → Call s (exit_store n b) (record s { start = 0; main = joining n n b })
  join_wait : (k n : ℕ) (b : Bool) → k < s.workers → s.pc k ≢ exited → Call s (joining k n b) s
  join :
      (k n : ℕ) (b : Bool)
      → k < s.workers
      → s.pc k ≡ exited
      → Call s (joining k n b) (record s { pc = update s.pc k absent; main = joining (k + 1) n b })
  joined :
      (k n : ℕ) (b : Bool)
      → s.workers ≤ k
      → Call s (joining k n b) (record s { workers = n; main = settle_wait b })
  settle_busy : (b : Bool) → s.end < s.workers → Call s (settle_wait b) s
  settle_full : (b : Bool) → s.workers ≤ s.end → Call s (settle_wait b) (to s (settle_store b))
  settle_open : (b : Bool) → Call s (settle_store b) (record s { end = 0; main = after b })

pub data Step (s : System) : System → Type 0 where
  worker : (i : ℕ) {t : System} → Work s i (s.pc i) t → Step s t
  caller : {t : System} → Call s s.main t → Step s t

abbrev pub init : System
init = record {
  start = 0;
  end = 0;
  job = none;
  made = none;
  main = idle;
  workers = 0;
  must_exit = λ i. false;
  pc = λ i. absent;
  runs = λ t. [];
  finished = [];
}

pub data Reach : System → Type 0 where
  here : Reach init
  next : {s t : System} → Reach s → Step s t → Reach t
