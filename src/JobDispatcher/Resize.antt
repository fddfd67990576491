-- ===== src/JobDispatcher/Resize.antt =====
-- turf/extra/JobDispatcher.h, one kick as a whole: which threads call which action, each thread making
-- its call once between the gates, whose steps `System` models. none stands for an assertion that
-- fails.
pub mod Laws
mod Tests
use turf.Prelude.{
  ℕ, zero, suc, ◌+◌, ◌-◌, ◌%◌, ◌^◌, ltb, leb, ◌==◌, if◌then◌else◌, Bool, true, ◌&&◌, Option, none,
  some, List, [], ◌∷◌, ◌++◌,
}
use mathlib.Core.Option.{map}
use turf.JobDispatcher.System.{wants}

-- `m_threads.size()`, thread 0 included, `m_action` with `m_param`, `m_threadFilter`, and the number of
-- physical cores if `m_useAffinities` is set.
pub record Dispatcher : Type 0 where
  pub cores : Option ℕ
  pub num_threads : ℕ
  pub action : Option ℕ
  pub filter : Option ℕ

pub reset_action : Dispatcher → Dispatcher
reset_action d = record d { action = none; filter = none }

-- The two assertions of `setNumSpawnedThreads`.
abbrev pub is_asserted : ℕ → Option ℕ → Bool
is_asserted num_threads none = ltb 0 num_threads
is_asserted num_threads (some cores) = ltb 0 num_threads && leb num_threads cores

abbrev pub resized : ℕ → Dispatcher → Dispatcher
resized num_threads d =
    if ltb num_threads d.num_threads
    then record d { num_threads = num_threads; action = none; filter = none }
    else record d { num_threads = num_threads }

pub set_num_spawned_threads : ℕ → Dispatcher → Option Dispatcher
set_num_spawned_threads num_threads d =
    if is_asserted num_threads d.cores then some (resized num_threads d) else none

-- The calls of the threads 1 to `k`, between the two gates.
pub calls : ℕ → Dispatcher → List (ℕ × Option ℕ)
calls zero d = []
calls (suc k) d = calls k d ++ (if wants d.filter (suc k) then (suc k, d.action) ∷ [] else [])

-- A kick yields the calls that were made, with the thread that made each.
pub record Kicked : Type 0 where
  pub made : List (ℕ × Option ℕ)
  pub after : Dispatcher

-- From the start gate to `resetAction()`; `own` tells whether thread 0, the caller, makes its call.
pub run_gates : Bool → Dispatcher → Kicked
unfolding calls reset_action
run_gates own d = record {
  made = (if own then (0, d.action) ∷ [] else []) ++ calls (d.num_threads - 1) d;
  after = reset_action d;
}

pub kick : ℕ → Dispatcher → Kicked
unfolding run_gates
kick closure d = run_gates true (record d { action = some closure })

pub kick_one : ℕ → ℕ → Dispatcher → Option Kicked
unfolding run_gates set_num_spawned_threads
kick_one thread_index closure d =
    let set = record d { filter = some thread_index; action = some closure } in
    map (run_gates (thread_index == 0)) (
      if leb set.num_threads thread_index
      then set_num_spawned_threads ((thread_index + 1) % 2 ^ 64) set
      else some set)

pub kick_multi : ℕ → ℕ → Dispatcher → Option Kicked
unfolding run_gates set_num_spawned_threads
kick_multi num_targets closure d =
    map (run_gates true) (set_num_spawned_threads num_targets (record d { action = some closure }))
