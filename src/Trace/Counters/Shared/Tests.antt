-- ===== src/Trace/Counters/Shared/Tests.antt =====
-- Groups 7 and 3 are added at the same time; a thread runs `dumpStats` when one of them is added.
use turf.Prelude.{ℕ_discrete, ℕ, none, some, List, [], ◌∷◌, ◌++◌, ◌≡◌, refl, arith}
use turf.Trace.Counters.{Group, dump_stats}
use turf.Trace.Counters.Shared.{
  System, Reach, here, next, adds, reads, load, link, failed, exchanged, start, visit,
}
use turf.Trace.Counters.Shared.Inv.{occurs, Chain, is_added}
use turf.Trace.Counters.Shared.Order.{groups_listed, all_visited, shown_all, dump_stats-printed}

-- The exchange of thread 3 fails once; thread 0 reads the head before it succeeds.
run : (s : System) × Reach s
unfolding ℕ_discrete
run = (
  _,
  next
      (next
        (next
          (next
            (next
              (next
                (next (next (next (next here (adds 7 load)) (adds 3 load)) (adds 7 (link none)))
                  (adds 3 (link none)))
                (adds 7 (exchanged none refl)))
              (reads 0 start))
            (adds 3 (failed none)))
          (adds 3 (link (some 7))))
        (adds 3 (exchanged (some 7) refl)))
      (reads 0 (visit 7 [] (7 ∷ []))),
)

groups_listed_example :
    Chain run.0.m_next run.0.first_group run.0.pushed
    × ((i : ℕ) → occurs i run.0.pushed ≡ is_added (run.0.pc i))
groups_listed_example = groups_listed run.0 run.1

abbrev only_seven : List ℕ
only_seven = 7 ∷ []

all_visited_example :
    (only_seven ≡ only_seven) × ((later : List ℕ) × (run.0.pushed ≡ later ++ only_seven))
unfolding run ℕ_discrete
all_visited_example = all_visited run.0 run.1 0 only_seven only_seven refl

abbrev used : ℕ → Group
used g = record { name = g; counters = record { count = 2; str = 5 } ∷ [] }

dump_stats-printed_example :
    dump_stats run.0.m_next used 2 run.0.first_group ≡ some (shown_all used run.0.pushed)
unfolding run ℕ_discrete
dump_stats-printed_example = dump_stats-printed run.0 run.1 used 2 (omega arith)
