-- ===== src/LazyMutex/Tests.antt =====
-- Two threads that race to construct the mutex; one of them holds it.
use turf.Prelude.{ℕ, ℕ_discrete, true, ◌≡◌, ◌≢◌, refl}
use turf.LazyMutex.{
  System, Reach, here, next, call, unset_before, exchanged, still_unset, construct, publish,
  release, locked, constructing,
}
use turf.LazyMutex.Safety.{locked_once}

raced : (s : System) × Reach s
unfolding ℕ_discrete
raced = (
  _,
  next 2
      (next 1
        (next 1
          (next 1
            (next 1
              (next 1
                (next 1
                  (next 2 (next 1 (next 2 (next 1 here call) call) (unset_before refl))
                    (unset_before refl))
                  (exchanged refl))
                (still_unset refl))
              construct)
            publish)
          release)
        (locked refl))
      (exchanged refl),
)

locked_once_example :
    (◌≡◌ {A = ℕ} 1 1)
    × (raced.0.constructed ≡ 1)
    × (raced.0.init_flag ≡ true)
    × ((k : ℕ) → raced.0.pc k ≢ constructing)
unfolding raced ℕ_discrete
locked_once_example = locked_once raced.1 1 1 refl refl
