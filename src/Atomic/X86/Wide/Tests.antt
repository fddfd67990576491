-- ===== src/Atomic/X86/Wide/Tests.antt =====
-- Runs of the 64-bit operations on a cell whose plain reads tear.
use turf.Prelude.{refl, arith, [], ◌∷◌}
use turf.Atomic.Bus.{mine, theirs, arrive, put, read_torn, cmpxchg, Replaced}
use turf.Atomic.Bus.Samples.{bus_at, busy}
use turf.Atomic.Ops.{op_exchange, meaning}
use turf.Atomic.X86.{compare_exchange}
use turf.Atomic.X86.Wide.{exchange64, exchange_loop, wide_ops}
use turf.Atomic.X86.Wide.Laws.{wide_rmw-Replaced}

-- The first read tears, and the first comparison fails and yields the value to compare with next.
wide_rmw-Replaced_example :
    Replaced (meaning 64 op_exchange 8) busy 7 (bus_at 8 3 (mine 7 8 ∷ theirs 5 7 ∷ []))
unfolding wide_ops exchange64 exchange_loop compare_exchange read_torn cmpxchg arrive put
wide_rmw-Replaced_example =
    wide_rmw-Replaced 0 3 op_exchange 8 (omega arith) busy (bus_at 8 3 (mine 7 8 ∷ theirs 5 7 ∷ []))
      7 refl
