-- ===== src/Affinity.antt =====
-- turf/impl/Affinity_Linux.h and turf/impl/Affinity_Linux.cpp: the table of cores that is made from
-- /proc/cpuinfo. A line of the file is the label and the number that it gives, if it gives one.
pub mod Groups
pub mod Table
pub mod Rows
pub mod Listed
pub mod Filled
pub mod FreeBsd
mod Tests
use turf.Prelude.{
  ℕ, zero, suc, ◌+◌, ◌%◌, ◌^◌, ltb, ◌==◌, if◌then◌else◌, Bool, true, false, ◌&&◌, Option, none,
  some, List, [], ◌∷◌, ◌++◌, length,
}

pub data ℤ : Type 0 where
  pos : ℕ → ℤ
  negsuc : ℕ → ℤ

-- `CoreID`
pub record CoreId : Type 0 where
  pub physical : ℤ
  pub core : ℤ

abbrev pub is_negative : ℤ → Bool
is_negative (pos n) = false
is_negative (negsuc n) = true

abbrev pub same_int : ℤ → ℤ → Bool
same_int (pos m) (pos n) = m == n
same_int (pos m) (negsuc n) = false
same_int (negsuc m) (pos n) = false
same_int (negsuc m) (negsuc n) = m == n

-- Neither is before the other.
abbrev pub same_core : CoreId → CoreId → Bool
same_core a b = same_int a.physical b.physical && same_int a.core b.core

-- `m_coreIndexToInfo`, `m_numHWThreads` and the collector's `coreIDToIndex`. The map lists its keys in
-- the order of their insertion.
pub record Cores : Type 0 where
  pub infos : List (List ℕ)
  pub num_hw_threads : ℕ
  pub index_of : List (CoreId × ℕ)

-- `logicalProcessor` and `coreID` of the collector.
pub record Collector : Type 0 where
  pub logical_processor : ℤ
  pub core_id : CoreId

abbrev pub no_core : CoreId
no_core = record { physical = negsuc 0; core = negsuc 0 }

abbrev pub collector : Collector
collector = record { logical_processor = negsuc 0; core_id = no_core }

abbrev pub find_index : CoreId → List (CoreId × ℕ) → Option ℕ
find_index id [] = none
find_index id ((k, i) ∷ m) = if same_core k id then some i else find_index id m

-- `m_coreIndexToInfo[i].hwThreadIndexToLogicalProcessor.push_back(n)`
abbrev pub push_at : ℕ → ℕ → List (List ℕ) → List (List ℕ)
push_at i n [] = []
push_at zero n (c ∷ cs) = (c ++ n ∷ []) ∷ cs
push_at (suc i) n (c ∷ cs) = c ∷ push_at i n cs

abbrev pub known_core : CoreId → ℕ → CoreId
known_core id n =
    if is_negative id.physical && is_negative id.core
    then record { physical = pos 0; core = pos n }
    else id

-- The part of `flush` from the look-up on.
pub add_thread : CoreId → ℕ → Cores → Cores
add_thread id n t = elim (find_index id t.index_of) [
  | none ↦
      let i = length t.infos in
      record {
        infos = push_at i n (t.infos ++ [] ∷ []);
        num_hw_threads = (t.num_hw_threads + 1) % 2 ^ 32;
        index_of = t.index_of ++ (id, i) ∷ [];
      }
  | some i ↦ record t {
    infos = push_at i n t.infos;
    num_hw_threads = (t.num_hw_threads + 1) % 2 ^ 32;
  }
]

pub flush : Collector → Cores → Cores
unfolding add_thread
flush c t = elim c.logical_processor [
  | pos n ↦ add_thread (known_core c.core_id n) n t
  | negsuc m ↦ t
]

pub data Line : Type 0 where
  processor : ℤ → Line
  physical_id : ℤ → Line
  core_id : ℤ → Line
  other : Line

-- The loop over the lines, with the last `flush`.
pub collect : Collector → Cores → List Line → Cores
unfolding flush
collect c t [] = flush c t
collect c t (processor v ∷ ls) =
    collect (record { logical_processor = v; core_id = no_core }) (flush c t) ls
collect c t (physical_id v ∷ ls) =
    collect (record c { core_id = record c.core_id { physical = v } }) t ls
collect c t (Line.core_id v ∷ ls) =
    collect (record c { core_id = record c.core_id { core = v } }) t ls
collect c t (other ∷ ls) = collect c t ls

abbrev pub no_cores : Cores
no_cores = record { infos = []; num_hw_threads = 0; index_of = [] }

pub record Affinity : Type 0 where
  pub is_accurate : Bool
  pub cores : List (List ℕ)
  pub num_threads : ℕ

abbrev pub resize_one : List (List ℕ) → List (List ℕ)
resize_one [] = [] ∷ []
resize_one (c ∷ cs) = c ∷ []

-- The end of the constructor.
pub finish : Cores → Affinity
finish t =
    if ltb 0 t.num_hw_threads
    then record { is_accurate = true; cores = t.infos; num_threads = t.num_hw_threads }
    else record { is_accurate = false; cores = push_at 0 0 (resize_one t.infos); num_threads = 1 }

-- The constructor, on the lines of the file; a file that cannot be opened has none.
pub affinity : List Line → Affinity
unfolding collect finish
affinity ls = finish (collect collector no_cores ls)
