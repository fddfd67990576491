-- ===== src/Trace/Counters.antt =====
-- turf/impl/Trace_Counters.h and turf/impl/Trace_Counters.cpp: groups of counters and what is printed
-- of them. A string stands as its address.
pub mod Printed
pub mod Shared
mod Tests
use turf.Prelude.{
  ℕ, zero, suc, ◌+◌, ◌%◌, ◌^◌, ◌==◌, if◌then◌else◌, Option, none, some, List, [], ◌∷◌, ◌++◌,
}

-- `TraceGroup::Counter`
pub record Counter : Type 0 where
  pub count : ℕ
  pub str : ℕ

-- `m_name` and `m_counters` of `TraceGroup`.
pub record Group : Type 0 where
  pub name : ℕ
  pub counters : List Counter

-- A line that `dump` prints.
pub data Line : Type 0 where
  heading : ℕ → Line
  row : ℕ → ℕ → Line

-- `fetchAdd` on the counter `index`, which the macro TURF_TRACE expands to; an index out of range is
-- no counter of the group.
pub add_one : ℕ → List Counter → List Counter
add_one index [] = []
add_one zero (c ∷ cs) = record c { count = (c.count + 1) % 2 ^ 32 } ∷ cs
add_one (suc index) (c ∷ cs) = c ∷ add_one index cs

abbrev pub trace : ℕ → Group → Group
trace index g = record g { counters = add_one index g.counters }

abbrev pub rows : List Counter → List Line
rows [] = []
rows (c ∷ cs) = row c.count c.str ∷ rows cs

pub dump : Group → List Line
dump g = heading g.name ∷ rows g.counters

-- The loop of `dumpIfUsed` over the counters that are left.
abbrev pub dump_from : Group → List Counter → List Line
dump_from g [] = []
dump_from g (c ∷ cs) = if c.count == 0 then dump_from g cs else dump g

pub dump_if_used : Group → List Line
dump_if_used g = dump_from g g.counters

abbrev pub before : List Line → Option (List Line) → Option (List Line)
before l none = none
before l (some m) = some (l ++ m)

-- The loop of `dumpStats` from `group` on, with `m_next` and the groups by their addresses; none when
-- the rounds are used up.
pub dump_stats : (ℕ → Option ℕ) → (ℕ → Group) → ℕ → Option ℕ → Option (List Line)
dump_stats m_next groups rounds none = some []
dump_stats m_next groups zero (some g) = none
dump_stats m_next groups (suc n) (some g) =
    before (dump_if_used (groups g)) (dump_stats m_next groups n (m_next g))
