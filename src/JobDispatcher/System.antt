-- ===== src/JobDispatcher/System.antt =====
-- The threads of a dispatcher while it is not resized, an access to shared memory at a time. Thread
-- 0 is the caller of `kick`, `kickOne` and `kickMulti`; worker `i` is the thread of index `i + 1`.
use turf.Prelude.{
  ℕ, ◌+◌, ◌%◌, ◌^◌, ◌≤◌, ◌<◌, Bool, true, ◌==◌, if◌then◌else◌, Option, none, some, List, [], ◌∷◌,
  ◌≡◌, update,
}

-- What a kick sets: `m_action` with its `m_param`, and `m_threadFilter`, where `none` is -1.
pub record Job : Type 0 where
  pub action : ℕ
  pub filter : Option ℕ

-- `m_threadFilter < 0 || m_threadFilter == threadIndex`
abbrev pub wants : Option ℕ → ℕ → Bool
wants none thread = true
wants (some t) thread = t == thread

-- `threadRun`: in `m_startGate.waitForKick()` before the increment and in its loop; past the test
-- of `mustExit`; then the same in `m_endGate`.
pub data Pc : Type 0 where
  start_ready start_spin running end_ready end_spin : Pc

-- The caller: outside of a kick; in `m_startGate.kick(n)` in its loop and before the store; before
-- its own call of the action; the same two points in `m_endGate.kick(n)`; before `resetAction()`.
pub data MainPc : Type 0 where
  idle start_wait start_store main_run end_wait end_store reset : MainPc

-- `runs t` lists the actions that thread `t` has run, the last one first; `job` is `none` for
-- `noAction`; `finished` lists the kicks that have passed the end gate.
pub record System : Type 0 where
  pub start : ℕ
  pub end : ℕ
  pub job : Option Job
  pub main : MainPc
  pub pc : ℕ → Pc
  pub runs : ℕ → List ℕ
  pub finished : List Job

-- A thread calls `m_action` if the filter lets it; `noAction` leaves no trace.
abbrev pub perform : Option Job → ℕ → List ℕ → List ℕ
perform none thread l = l
perform (some j) thread l = if wants j.filter thread then j.action ∷ l else l

abbrev pub finish : Option Job → List Job → List Job
finish none l = l
finish (some j) l = j ∷ l

-- One step of worker `i`. `fetchAdd` wraps at 64 bits.
pub data Work (s : System) (i : ℕ) : Pc → System → Type 0 where
  start_add :
      Work s i start_ready
        (record s { start = (s.start + 1) % 2 ^ 64; pc = update s.pc i start_spin })
  start_stay : 0 < s.start → Work s i start_spin s
  start_leave : s.start ≡ 0 → Work s i start_spin (record s { pc = update s.pc i running })
  run : Work s i running (record s {
    pc = update s.pc i end_ready;
    runs = update s.runs (i + 1) (perform s.job (i + 1) (s.runs (i + 1)));
  })
  end_add :
      Work s i end_ready (record s { end = (s.end + 1) % 2 ^ 64; pc = update s.pc i end_spin })
  end_stay : 0 < s.end → Work s i end_spin s
  end_leave : s.end ≡ 0 → Work s i end_spin (record s { pc = update s.pc i start_ready })

-- One step of the caller, with `n` workers.
pub data Call (n : ℕ) (s : System) : MainPc → System → Type 0 where
  kick : (j : Job) → Call n s idle (record s { job = some j; main = start_wait })
  start_busy : s.start < n → Call n s start_wait s
  start_full : n ≤ s.start → Call n s start_wait (record s { main = start_store })
  start_open : Call n s start_store (record s { start = 0; main = main_run })
  own_run :
      Call n s main_run
        (record s { runs = update s.runs 0 (perform s.job 0 (s.runs 0)); main = end_wait })
  end_busy : s.end < n → Call n s end_wait s
  end_full : n ≤ s.end → Call n s end_wait (record s { main = end_store })
  end_open :
      Call n s end_store (record s { end = 0; main = reset; finished = finish s.job s.finished })
  reset_action : Call n s reset (record s { job = none; main = idle })

pub data Step (n : ℕ) (s : System) : System → Type 0 where
  worker : (i : ℕ) {t : System} → i < n → Work s i (s.pc i) t → Step n s t
  caller : {t : System} → Call n s s.main t → Step n s t

abbrev pub init : System
init = record {
  start = 0;
  end = 0;
  job = none;
  main = idle;
  pc = λ i. start_ready;
  runs = λ t. [];
  finished = [];
}

pub data Reach (n : ℕ) : System → Type 0 where
  here : Reach n init
  next : {s t : System} → Reach n s → Step n s t → Reach n t
