-- ===== src/Affinity/Tests.antt =====
-- Two cores, the first with two hardware threads.
use turf.Prelude.{true, List, [], ◌∷◌, ◌≡◌, refl, arith}
use turf.Affinity.{pos, Line, processor, physical_id, core_id, other, affinity, collector}
use turf.Affinity.Groups.{threads}
use turf.Affinity.Filled.{grouped, affinity-grouped}

abbrev cpuinfo : List Line
cpuinfo =
    processor (pos 0)
    ∷ physical_id (pos 0)
    ∷ other
    ∷ core_id (pos 0)
    ∷ processor (pos 1)
    ∷ physical_id (pos 0)
    ∷ core_id (pos 1)
    ∷ processor (pos 2)
    ∷ physical_id (pos 0)
    ∷ core_id (pos 0)
    ∷ []

affinity_of_three :
    affinity cpuinfo
    ≡ record { is_accurate = true; cores = (0 ∷ 2 ∷ []) ∷ (1 ∷ []) ∷ []; num_threads = 3 }
unfolding affinity
affinity_of_three = refl

affinity-grouped_example : affinity cpuinfo ≡ grouped (threads collector cpuinfo)
affinity-grouped_example = affinity-grouped cpuinfo (omega arith)
