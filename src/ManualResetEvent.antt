-- ===== src/ManualResetEvent.antt =====
-- turf/impl/ManualResetEvent_CondVar.h: threads that call `signal`, `reset` and `wait`. The mutex and
-- the condition variable are the platform's: one thread locks the mutex at a time; `wait` of the
-- condition variable unlocks and sleeps in one step, and locks again when it wakes, also with no
-- call of `wakeAll`.
pub mod Safety
mod Tests
use turf.Prelude.{ℕ, ◌≡◌, update, Bool, true, false, Option, none, some}

-- The calls that a thread can be in.
pub data Call : Type 0 where
  signal reset wait : Call

-- A thread: outside; at the guard's lock; at the first statement of the body, for `wait` the test of
-- the loop; at `wakeAll`; asleep in `m_condVar.wait`; at the lock as it wakes; at the guard's end.
pub data Pc : Type 0 where
  outside : Pc
  locking : Call → Pc
  body : Call → Pc
  waking_all : Pc
  asleep : Pc
  woken : Pc
  unlocking : Call → Pc

pub record System : Type 0 where
  pub state : Bool
  pub owner : Option ℕ
  pub pc : ℕ → Pc

-- What `wakeAll` does to a thread.
abbrev pub wake : Pc → Pc
wake asleep = woken
wake p = p

abbrev pub at : System → ℕ → Pc → System
at s i p = record s { pc = update s.pc i p }

-- One step of thread `i`.
pub data Turn (s : System) (i : ℕ) : Pc → System → Type 0 where
  call : (c : Call) → Turn s i outside (at s i (locking c))
  locked :
      (c : Call)
      → s.owner ≡ none
      → Turn s i (locking c) (record (at s i (body c)) { owner = some i })
  set_state : Turn s i (body signal) (record (at s i waking_all) { state = true })
  wake_all :
      Turn s i waking_all (record s { pc = update (λ j. wake (s.pc j)) i (unlocking signal) })
  clear_state : Turn s i (body reset) (record (at s i (unlocking reset)) { state = false })
  not_set : s.state ≡ false → Turn s i (body wait) (record (at s i asleep) { owner = none })
  is_set : s.state ≡ true → Turn s i (body wait) (at s i (unlocking wait))
  wake_up : Turn s i asleep (at s i woken)
  relocked : s.owner ≡ none → Turn s i woken (record (at s i (body wait)) { owner = some i })
  unlocked : (c : Call) → Turn s i (unlocking c) (record (at s i outside) { owner = none })

abbrev pub initialize : Bool → System
initialize initial_state = record { state = initial_state; owner = none; pc = λ i. outside }

pub data Reach (initial_state : Bool) : System → Type 0 where
  here : Reach initial_state (initialize initial_state)
  next :
      {s t : System} (i : ℕ) → Reach initial_state s → Turn s i (s.pc i) t → Reach initial_state t
