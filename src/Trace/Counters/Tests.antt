-- ===== src/Trace/Counters/Tests.antt =====
-- A group with two counters, traced three times.
use turf.Prelude.{some, [], ◌∷◌, ◌≡◌, refl, arith}
use turf.Trace.Counters.{Group, heading, row, trace, add_one, dump, dump_if_used}
use turf.Trace.Counters.Printed.{nth, traces, calls, advanced, traces-counted}

abbrev jobs : Group
jobs = record {
  name = 100;
  counters = record { count = 0; str = 101 } ∷ record { count = 0; str = 102 } ∷ [];
}

unused : dump_if_used jobs ≡ []
unfolding dump_if_used
unused = refl

printed : dump_if_used (trace 1 jobs) ≡ heading 100 ∷ row 0 101 ∷ row 1 102 ∷ []
unfolding dump_if_used dump add_one
printed = refl

traces-counted_example :
    nth 1 (traces (1 ∷ 0 ∷ 1 ∷ []) jobs).counters
    ≡ some (advanced (record { count = 0; str = 102 }) (calls 1 (1 ∷ 0 ∷ 1 ∷ [])))
traces-counted_example =
    traces-counted (1 ∷ 0 ∷ 1 ∷ []) jobs 1 (record { count = 0; str = 102 }) refl (omega arith)
