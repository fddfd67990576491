-- ===== src/Trace/Counters/Shared.antt =====
-- `addGroup` in several threads, and threads that run `dumpStats` meanwhile, an access to shared memory
-- at a time. Thread `i` adds the group with address `i`.
pub mod Inv
pub mod Order
mod Tests
use turf.Prelude.{ℕ, Option, none, some, List, [], ◌∷◌, ◌++◌, ◌≡◌, update}

-- Before the load of `m_firstGroup`; before the store to `m_next`; before the weak compare-exchange;
-- and after `addGroup`.
pub data Pc : Type 0 where
  loading : Pc
  linking : Option ℕ → Pc
  exchanging : Option ℕ → Pc
  added : Pc

-- A thread in the loop of `dumpStats`: `group`, the groups that it has visited, and the groups that were
-- added when it read `m_firstGroup`.
pub data Reader : Type 0 where
  idle : Reader
  walking : Option ℕ → List ℕ → List ℕ → Reader

-- `pushed` lists the groups in the order of their exchanges, the last one first.
pub record System : Type 0 where
  pub first_group : Option ℕ
  pub m_next : ℕ → Option ℕ
  pub pc : ℕ → Pc
  pub reader : ℕ → Reader
  pub pushed : List ℕ

abbrev pub at : System → ℕ → Pc → System
at s i p = record s { pc = update s.pc i p }

abbrev pub reading : System → ℕ → Reader → System
reading s j r = record s { reader = update s.reader j r }

-- One step of `addGroup`. The exchange can fail where the head is the expected one; `oldHead` is the
-- head that it has seen.
pub data Turn (s : System) (i : ℕ) : Pc → System → Type 0 where
  load : Turn s i loading (at s i (linking s.first_group))
  link :
      (h : Option ℕ)
      → Turn s i
          (linking h)
          (record s { m_next = update s.m_next i h; pc = update s.pc i (exchanging h) })
  failed : (h : Option ℕ) → Turn s i (exchanging h) (at s i (linking s.first_group))
  exchanged :
      (h : Option ℕ)
      → s.first_group ≡ h
      → Turn s i
          (exchanging h)
          (record s { first_group = some i; pc = update s.pc i added; pushed = i ∷ s.pushed })

-- One step of `dumpStats`.
pub data Read (s : System) (j : ℕ) : Reader → System → Type 0 where
  start : Read s j idle (reading s j (walking s.first_group [] s.pushed))
  visit :
      (g : ℕ) (v snap : List ℕ)
      → Read s j (walking (some g) v snap) (reading s j (walking (s.m_next g) (v ++ g ∷ []) snap))
  stop : (v snap : List ℕ) → Read s j (walking none v snap) (reading s j idle)

pub data Step (s : System) : System → Type 0 where
  adds : (i : ℕ) {t : System} → Turn s i (s.pc i) t → Step s t
  reads : (j : ℕ) {t : System} → Read s j (s.reader j) t → Step s t

-- The instance is zero, and the constructor of a group sets `m_next` to NULL.
abbrev pub init : System
init = record {
  first_group = none;
  m_next = λ i. none;
  pc = λ i. loading;
  reader = λ j. idle;
  pushed = [];
}

pub data Reach : System → Type 0 where
  here : Reach init
  next : {s t : System} → Reach s → Step s t → Reach t
