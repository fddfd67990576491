-- ===== src/Random/Tests.antt =====
-- The steps of a small state.
use turf.Prelude.{◌≡◌, refl}
use turf.Random.{Random, step, next64}
use turf.Random.Seeded.{IsSeeded, make-IsSeeded}
use turf.Random.{make}

abbrev small : Random
small = record { s0 = 1; s1 = 2 }

next64_small : next64 small ≡ (8388677, record { s0 = 2; s1 = 8388675 })
unfolding next64 step
next64_small = refl

make-IsSeeded_example : IsSeeded (make 5 6 7)
make-IsSeeded_example = make-IsSeeded 5 6 7
