-- ===== src/ManualResetEvent/Tests.antt =====
-- One thread waits and another signals.
use turf.Prelude.{ℕ, ℕ_discrete, false, some, ◌≡◌, refl}
use turf.ManualResetEvent.{
  System, Reach, here, next, call, locked, set_state, not_set, signal, wait, waking_all,
}
use turf.ManualResetEvent.Safety.{no_lost_wake}

-- Thread 1 sleeps, and thread 2 has set the state.
signalled : (s : System) × Reach false s
unfolding ℕ_discrete
signalled = (
  _,
  next 2
      (next 2
        (next 2 (next 1 (next 1 (next 1 here (call wait)) (locked wait refl)) (not_set refl))
          (call signal))
        (locked signal refl))
      set_state,
)

no_lost_wake_example : (k : ℕ) × (signalled.0.pc k ≡ waking_all) × (signalled.0.owner ≡ some k)
unfolding signalled ℕ_discrete
no_lost_wake_example = no_lost_wake signalled.1 refl 1 refl
