-- ===== src/SpinLock.antt =====
-- turf/impl/Mutex_SpinLock.h: threads that lock and unlock, an access to the lock word at a time.
pub mod Safety
mod Tests
use turf.Prelude.{ℕ, ◌≡◌, ◌≢◌, update}

-- A thread: outside; in the loop of `lock()`; between `lock()` and `unlock()`.
pub data Pc : Type 0 where
  outside spinning holding : Pc

pub record System : Type 0 where
  pub spin_lock : ℕ
  pub pc : ℕ → Pc

-- One step of thread `i`. Only a thread that holds the lock unlocks it.
pub data Turn (s : System) (i : ℕ) : Pc → System → Type 0 where
  lock : Turn s i outside (record s { pc = update s.pc i spinning })
  exchanged :
      s.spin_lock ≡ 0 → Turn s i spinning (record s { spin_lock = 1; pc = update s.pc i holding })
  failed : s.spin_lock ≢ 0 → Turn s i spinning s
  unlock : Turn s i holding (record s { spin_lock = 0; pc = update s.pc i outside })

abbrev pub initialize : System
initialize = record { spin_lock = 0; pc = λ i. outside }

pub data Reach : System → Type 0 where
  here : Reach initialize
  next : {s t : System} (i : ℕ) → Reach s → Turn s i (s.pc i) t → Reach t
