-- ===== src/SpinLock/Tests.antt =====
-- Two threads that want the lock.
use turf.Prelude.{ℕ, ℕ_discrete, ◌≡◌, refl}
use turf.SpinLock.{System, Reach, here, next, lock, exchanged}
use turf.SpinLock.Safety.{mutual_exclusion}

locked : (s : System) × Reach s
unfolding ℕ_discrete
locked = (_, next 4 (next 7 (next 4 here lock) lock) (exchanged refl))

mutual_exclusion_example : (◌≡◌ {A = ℕ} 4 4) × (locked.0.spin_lock ≡ 1)
unfolding locked ℕ_discrete
mutual_exclusion_example = mutual_exclusion locked.1 4 4 refl refl
