-- ===== src/Atomic/Ordered/Sections/Tests.antt =====
-- A pointer is advanced.
use turf.Prelude.{refl, arith, [], ◌∷◌}
use turf.Atomic.Bus.{mine, acquire_fence, release_fence, arrive, put, modify, fence}
use turf.Atomic.Bus.Samples.{bus_at, busy}
use turf.Atomic.Ops.{op_add, meaning}
use turf.Atomic.X86.{fetch_add, ops, ops64}
use turf.Atomic.Ordered.{acq_rel, fenced, ordered, ordered64, ordered_ptr8}
use turf.Atomic.Ordered.Laws.{ReplacedFenced}
use turf.Atomic.Ordered.Sections.{ptr, header_rmw-ReplacedFenced}

header_rmw-ReplacedFenced_example :
    ReplacedFenced
      (meaning 64 op_add 8)
      acq_rel
      busy
      5
      (bus_at 13 1 (acquire_fence ∷ mine 5 13 ∷ release_fence ∷ []))
unfolding ordered_ptr8 ordered64 ordered fenced ops64 ops fetch_add modify fence arrive put
header_rmw-ReplacedFenced_example =
    header_rmw-ReplacedFenced ptr 1 op_add acq_rel 8 (omega arith) busy
      (bus_at 13 1 (acquire_fence ∷ mine 5 13 ∷ release_fence ∷ [])) 5 refl
