-- ===== src/LazyMutex.antt =====
-- turf/impl/Mutex_LazyInit.h: threads that lock and unlock, an access to a shared flag at a time.
-- The mutex in the buffer is the platform's; it is taken to be locked by one thread at a time.
pub mod Safety
mod Tests
use turf.Prelude.{ℕ, suc, ◌≡◌, ◌≢◌, update, Bool, true, false, Option, none, some}

-- A thread: outside; at the test of `m_initFlag` in `lock()`; in the loop on `m_spinLock`; at the
-- second test; at the construction; at the store to `m_initFlag`; at the store to `m_spinLock`; at
-- `getMutex().lock()`; between `lock()` and `unlock()`.
pub data Pc : Type 0 where
  outside checking spinning testing constructing publishing releasing ready holding : Pc

-- `m_initFlag`, `m_spinLock`, and the buffer: how often the mutex was constructed in it, and which
-- thread has locked it.
pub record System : Type 0 where
  pub init_flag : Bool
  pub spin_lock : Bool
  pub constructed : ℕ
  pub owner : Option ℕ
  pub pc : ℕ → Pc

abbrev pub at : System → ℕ → Pc → System
at s i p = record s { pc = update s.pc i p }

-- One step of thread `i`.
pub data Turn (s : System) (i : ℕ) : Pc → System → Type 0 where
  call : Turn s i outside (at s i checking)
  set_before : s.init_flag ≡ true → Turn s i checking (at s i ready)
  unset_before : s.init_flag ≡ false → Turn s i checking (at s i spinning)
  exchanged : s.spin_lock ≡ false → Turn s i spinning (record (at s i testing) { spin_lock = true })
  failed : s.spin_lock ≡ true → Turn s i spinning s
  set_meanwhile : s.init_flag ≡ true → Turn s i testing (at s i releasing)
  still_unset : s.init_flag ≡ false → Turn s i testing (at s i constructing)
  construct :
      Turn s i constructing
        (record (at s i publishing) { constructed = suc s.constructed; owner = none })
  publish : Turn s i publishing (record (at s i releasing) { init_flag = true })
  release : Turn s i releasing (record (at s i ready) { spin_lock = false })
  locked : s.owner ≡ none → Turn s i ready (record (at s i holding) { owner = some i })
  unlock : Turn s i holding (record (at s i outside) { owner = none })

-- Zeroed memory.
abbrev pub zero_init : System
zero_init = record {
  init_flag = false;
  spin_lock = false;
  constructed = 0;
  owner = none;
  pc = λ i. outside;
}

pub data Reach : System → Type 0 where
  here : Reach zero_init
  next : {s t : System} (i : ℕ) → Reach s → Turn s i (s.pc i) t → Reach t
