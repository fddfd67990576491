-- ===== src/Trace/MemLog/Shared.antt =====
-- turf/impl/Trace_MemLog.h and turf/impl/Trace_MemLog.cpp, for threads that log at the same time, an
-- access to shared memory at a time. The mutex is the platform's. Pages are numbered as they are
-- made, so the page after page `p` is page `p + 1`, and `m_head` is the first one not deleted. The memory
-- of a deleted page may have another use, so a thread that still adds to it or stores in it may read any
-- value there, and change what any page holds.
pub mod Slots
pub mod Count
pub mod Freed
mod Tests
use turf.Prelude.{ℕ, suc, ◌+◌, ◌≤◌, ◌<◌, ◌≡◌, update, Bool, true, false, Option, none, some}
use turf.Trace.MemLog.{events_per_page, max_num_pages}

-- A thread: outside; at the load of `m_tail`; at `fetchAdd` on the page it loaded; at the lock; at the
-- test of the last page, with the mutex; at `fetchAdd` on it; at the store to `m_tail`; at the test
-- of `m_numPages`; at the unlock, with its slot; at the stores to its slot.
pub data Pc : Type 0 where
  outside loading : Pc
  adding : ℕ → Pc
  locking checking : Pc
  adding_last : ℕ → Pc
  storing_tail : Pc
  counting : ℕ → Pc
  unlocking : ℕ → ℕ → Pc
  writing : ℕ → ℕ → Pc

-- `written` tells which slots have had an event stored in them, and `stale` whether a thread has used
-- a page that was deleted.
pub record System : Type 0 where
  pub index : ℕ → ℕ
  pub head : ℕ
  pub tail : ℕ
  pub num_pages : ℕ
  pub owner : Option ℕ
  pub written : ℕ → ℕ → Bool
  pub stale : Bool
  pub pc : ℕ → Pc

abbrev pub at : System → ℕ → Pc → System
at s i p = record s { pc = update s.pc i p }

abbrev pub bump : System → ℕ → System
bump s p = record s { index = update s.index p (s.index p + 1) }

-- One step of thread `i`.
pub data Turn (s : System) (i : ℕ) : Pc → System → Type 0 where
  call : Turn s i outside (at s i loading)
  loaded : Turn s i loading (at s i (adding s.tail))
  got_slot :
      (p : ℕ)
      → s.head ≤ p
      → s.index p < events_per_page
      → Turn s i (adding p) (at (bump s p) i (writing p (s.index p)))
  was_full :
      (p : ℕ)
      → s.head ≤ p
      → events_per_page ≤ s.index p
      → Turn s i (adding p) (at (bump s p) i locking)
  stale_slot :
      (p k : ℕ) (index : ℕ → ℕ)
      → p < s.head
      → k < events_per_page
      → Turn s i (adding p) (record (at s i (writing p k)) { index = index; stale = true })
  stale_full :
      (p : ℕ) (index : ℕ → ℕ)
      → p < s.head
      → Turn s i (adding p) (record (at s i locking) { index = index; stale = true })
  locked : s.owner ≡ none → Turn s i locking (record (at s i checking) { owner = some i })
  has_room : s.index s.tail < events_per_page → Turn s i checking (at s i (adding_last s.tail))
  has_none : events_per_page ≤ s.index s.tail → Turn s i checking (at s i storing_tail)
  got_last :
      (p : ℕ)
      → s.index p < events_per_page
      → Turn s i (adding_last p) (at (bump s p) i (unlocking p (s.index p)))
  filled :
      (p : ℕ)
      → events_per_page ≤ s.index p
      → Turn s i (adding_last p) (at (bump s p) i storing_tail)
  store_tail : Turn s i storing_tail (record (at s i (counting (s.tail + 1))) {
    tail = s.tail + 1;
    index = update s.index (s.tail + 1) 1;
  })
  delete_head :
      (p : ℕ)
      → max_num_pages ≤ s.num_pages
      → Turn s i (counting p) (record (at s i (unlocking p 0)) { head = s.head + 1 })
  count_page :
      (p : ℕ)
      → s.num_pages < max_num_pages
      → Turn s i (counting p) (record (at s i (unlocking p 0)) { num_pages = s.num_pages + 1 })
  unlock : (p k : ℕ) → Turn s i (unlocking p k) (record (at s i (writing p k)) { owner = none })
  write :
      (p k : ℕ)
      → s.head ≤ p
      → Turn s i
          (writing p k)
          (record (at s i outside) { written = update s.written p (update (s.written p) k true) })
  stale_write :
      (p k : ℕ) (index : ℕ → ℕ) (written : ℕ → ℕ → Bool)
      → p < s.head
      → Turn s i
          (writing p k)
          (record (at s i outside) { index = index; written = written; stale = true })

abbrev pub init : System
init = record {
  index = λ p. 0;
  head = 0;
  tail = 0;
  num_pages = 1;
  owner = none;
  written = λ p k. false;
  stale = false;
  pc = λ i. outside;
}

pub data Reach : System → Type 0 where
  here : Reach init
  next : {s t : System} (i : ℕ) → Reach s → Turn s i (s.pc i) t → Reach t
