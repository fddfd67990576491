-- ===== src/Affinity/Groups.antt =====
-- The independent description of the table: threads grouped by their core.
use turf.Prelude.{ℕ, if◌then◌else◌, Bool, true, false, List, [], ◌∷◌, ◌++◌, map}
use turf.Affinity.{
  pos, negsuc, CoreId, same_core, known_core, no_core, Collector, Line, processor, physical_id,
  other,
}

-- A hardware thread: its core and its logical processor.
abbrev pub Thread : Type 0
Thread = CoreId × ℕ

-- The threads that the lines describe.
abbrev pub finished : Collector → List Thread
finished c = elim c.logical_processor [ pos n ↦ (known_core c.core_id n, n) ∷ [] | negsuc m ↦ [] ]

abbrev pub threads : Collector → List Line → List Thread
threads c [] = finished c
threads c (processor v ∷ ls) =
    finished c ++ threads (record { logical_processor = v; core_id = no_core }) ls
threads c (physical_id v ∷ ls) =
    threads (record c { core_id = record c.core_id { physical = v } }) ls
threads c (Line.core_id v ∷ ls) = threads (record c { core_id = record c.core_id { core = v } }) ls
threads c (other ∷ ls) = threads c ls

-- The logical processors of one core.
abbrev pub members : CoreId → List Thread → List ℕ
members k [] = []
members k ((id, n) ∷ ts) = if same_core k id then n ∷ members k ts else members k ts

abbrev pub is_listed : CoreId → List CoreId → Bool
is_listed id [] = false
is_listed id (k ∷ ks) = if same_core k id then true else is_listed id ks

-- The cores in the order in which they first occur, after those of `ks`.
abbrev pub cores_from : List CoreId → List Thread → List CoreId
cores_from ks [] = ks
cores_from ks ((id, n) ∷ ts) = cores_from (if is_listed id ks then ks else ks ++ id ∷ []) ts

-- One list of logical processors for each core.
unfoldable pub groups : List Thread → List (List ℕ)
groups ts = map (λ k. members k ts) (cores_from [] ts)
