-- ===== src/Atomic/Ordered/Native/Tests.antt =====
-- A flag that is cleared.
use turf.Prelude.{Bool, true, false, refl, [], ◌∷◌, ◌≡◌, some}
use turf.Atomic.Bus.{mine, acquire_fence, release_fence, arrive, put, cmpxchg, fence, own}
use turf.Atomic.Bus.Samples.{bus_at}
use turf.Atomic.X86.{compare_exchange, ops}
use turf.Atomic.X86.Laws.{ops-IsAtomic}
use turf.Atomic.Ordered.{acq_rel, fenced, ordered}
use turf.Atomic.Ordered.Native.{truth, strong_bool, native_bool}
use turf.Atomic.Ordered.Native.Laws.{strong_bool-events}

-- An exchange that expects false finds true.
found_set :
    (native_bool (ordered (ops 8 1))).compare_exchange_strong false true acq_rel (bus_at 1 0 [])
    ≡ some ((false, true), bus_at 1 1 (acquire_fence ∷ release_fence ∷ []))
unfolding native_bool strong_bool ordered fenced ops compare_exchange cmpxchg fence arrive put
found_set = refl

strong_bool-events_example :
    (truth 0 ≡ false)
    × (◌≡◌ {A = Bool} true true)
    × (own (acquire_fence ∷ mine 1 0 ∷ release_fence ∷ [])
        ≡ acquire_fence ∷ mine 1 0 ∷ release_fence ∷ [])
unfolding native_bool strong_bool ordered fenced ops compare_exchange cmpxchg fence arrive put
strong_bool-events_example =
    strong_bool-events (ops 8 1) (ops-IsAtomic 8 1) acq_rel true false (bus_at 1 0 [])
      (bus_at 0 1 (acquire_fence ∷ mine 1 0 ∷ release_fence ∷ [])) true true refl
