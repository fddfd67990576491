-- ===== src/Atomic/Arm/Pair/Tests.antt =====
-- Runs of the 64-bit functions.
use turf.Prelude.{◌≡◌, ◌≢◌, refl, arith, some, [], ◌∷◌}
use turf.Atomic.Bus.{Bus, mine, theirs, arrive, put, ldrex, strex, own, Replaced}
use turf.Atomic.Bus.Samples.{bus_at, busy}
use turf.Atomic.Ops.{of_add, as_rmw, meaning}
use turf.Atomic.Arm.Pair.{pair_loop, add_words, fetch_add64, exchange64, pair_ops}
use turf.Atomic.Arm.Pair.Laws.{exchange64-keeps, pair_fetch-Replaced}

-- The sum carries into the high word.
pair_fetch-Replaced_example :
    Replaced
      (meaning 64 (as_rmw of_add) 4294967295)
      busy
      7
      (bus_at 4294967302 4 (mine 7 4294967302 ∷ theirs 5 7 ∷ []))
unfolding pair_ops fetch_add64 pair_loop add_words ldrex strex arrive put
pair_fetch-Replaced_example =
    pair_fetch-Replaced 2 of_add 4294967295 busy
      (bus_at 4294967302 4 (mine 7 4294967302 ∷ theirs 5 7 ∷ [])) 7 refl

exchange64-keeps_example :
    (b' : Bus) × (exchange64 1 0 6 busy ≡ some (5, b'))
    × (b'.cell ≢ 6)
    × (own b'.log ≡ own busy.log)
unfolding arrive
exchange64-keeps_example = exchange64-keeps 0 0 6 busy (omega arith) (omega arith)
