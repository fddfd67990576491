-- ===== src/TimeWaster/Tests.antt =====
-- A table with one value that ends the loop.
use turf.Prelude.{ℕ, ◌==◌, if◌then◌else◌, some, ◌≡◌, refl, arith}
use turf.TimeWaster.{TimeWaster, make, advance, waste_random_cycles}
use turf.TimeWaster.Ends.{IsValid, make-IsValid, waste_random_cycles-IsValid}

abbrev values : ℕ → ℕ
values i = if i == 5 then 16 else 9

around : waste_random_cycles values 3 (make 65520 2) ≡ some (record { pos = 8; step = 3 })
unfolding waste_random_cycles advance
around = refl

waste_random_cycles-IsValid_example :
    (u : TimeWaster) × (waste_random_cycles values 65521 (make 65520 2) ≡ some u)
    × IsValid u
    × (u.step ≡ 3)
waste_random_cycles-IsValid_example =
    waste_random_cycles-IsValid values 5 (omega arith) refl (make 65520 2) (make-IsValid 65520 2)
      65521 (omega arith)
