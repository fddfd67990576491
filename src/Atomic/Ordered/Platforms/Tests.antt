-- ===== src/Atomic/Ordered/Platforms/Tests.antt =====
-- A sum with a fence.
use turf.Prelude.{refl, arith, [], ◌∷◌}
use turf.Atomic.Bus.{mine, theirs, release_fence, arrive, put, ldrex, strex, fence}
use turf.Atomic.Bus.Samples.{bus_at, busy}
use turf.Atomic.Ops.{op_add, meaning}
use turf.Atomic.Arm
use turf.Atomic.Ordered.{release, fenced, ordered, ordered32, ordered_ptr4}
use turf.Atomic.Ordered.Laws.{ReplacedFenced}
use turf.Atomic.Ordered.Platforms.{aptr, arm_header-ReplacedFenced}

arm_header-ReplacedFenced_example :
    ReplacedFenced
      (meaning 32 op_add 8)
      release
      busy
      7
      (bus_at 15 4 (mine 7 15 ∷ theirs 5 7 ∷ release_fence ∷ []))
unfolding ordered_ptr4 ordered32 ordered fenced Arm.ops32 Arm.ops Arm.fetch_add Arm.llsc_loop ldrex
    strex fence arrive put
arm_header-ReplacedFenced_example =
    arm_header-ReplacedFenced aptr 4096 0 2 op_add release 8 (omega arith) busy
      (bus_at 15 4 (mine 7 15 ∷ theirs 5 7 ∷ release_fence ∷ [])) 7 refl
