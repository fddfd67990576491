-- ===== src/RaceDetector/Tests.antt =====
-- A thread in the section.
use turf.Prelude.{ℕ, ℕ_discrete, ◌≡◌, refl}
use turf.RaceDetector.{System, Reach, here, next, enter}
use turf.RaceDetector.Safety.{no_break-alone}

one_in : (s : System) × Reach s
unfolding ℕ_discrete
one_in = (_, next 4 here (enter refl))

no_break-alone_example : ◌≡◌ {A = ℕ} 4 4
unfolding one_in ℕ_discrete
no_break-alone_example = no_break-alone one_in.0 one_in.1 refl 4 4 refl refl
