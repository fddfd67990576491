-- ===== src/Atomic/Arm/Tests.antt =====
-- Runs of the loops on a cell that changes under them.
use turf.Prelude.{ℕ, ◌≡◌, refl, arith, some, true}
use turf.Atomic.Bus.{Bus, arrive, own}
use turf.Atomic.Bus.Samples.{busy}
use turf.Atomic.Arm.{llsc_loop}
use turf.Atomic.Arm.Weak.{byte, narrow_ops, compare_exchange_weak-false_success}
use turf.Atomic.Arm.Live.{llsc_loop-returns}

-- The cell holds 5, which is what is expected.
compare_exchange_weak-false_success_example :
    (b' : Bus) × ((narrow_ops byte 4096 0 3).compare_exchange_weak 5 6 busy ≡ some ((true, 5), b'))
    × (b'.cell ≡ 5)
    × (own b'.log ≡ own busy.log)
unfolding arrive
compare_exchange_weak-false_success_example =
    compare_exchange_weak-false_success byte 4096 0 3 5 6 busy (omega arith) (omega arith)

llsc_loop-returns_example : (x : ℕ) × (b' : Bus) × (llsc_loop (λ x. x) 3 busy ≡ some (x, b'))
llsc_loop-returns_example =
    llsc_loop-returns (λ x. x) 3 1 busy (omega arith) (record { silent = refl; kept = refl })
