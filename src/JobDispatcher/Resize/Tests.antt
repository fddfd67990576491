-- ===== src/JobDispatcher/Resize/Tests.antt =====
-- Kicks of a dispatcher of three threads.
use turf.Prelude.{◌≡◌, arith, refl, none, some, [], ◌∷◌}
use turf.JobDispatcher.Resize.{Dispatcher, Kicked, kick_multi}
use turf.JobDispatcher.Resize.Laws.{each, kick_multi_loses_action}

abbrev three : Dispatcher
three = record { cores = some 4; num_threads = 3; action = none; filter = none }

kick_multi_loses_action_example :
    (k : Kicked) × (kick_multi 2 7 three ≡ some k) × (k.made ≡ (0, none) ∷ (1, none) ∷ [])
unfolding each
kick_multi_loses_action_example = kick_multi_loses_action 2 7 three (omega arith) refl
