-- ===== src/TimeWaster.antt =====
-- turf/extra/TimeWaster.h and its source file. The random words that the generator yields are
-- arguments.
pub mod Ends
mod Tests
use turf.Prelude.{
  ℕ, zero, suc, ◌+◌, ◌-◌, ◌%◌, leb, ◌==◌, if◌then◌else◌, bit_and, Option, none, some,
}

-- `ArraySize`
abbrev pub array_size : ℕ
array_size = 65521

-- `m_pos` and `m_step`
pub record TimeWaster : Type 0 where
  pub pos : ℕ
  pub step : ℕ

-- The constructor, with the two words of its generator.
abbrev pub make : ℕ → ℕ → TimeWaster
make first second = record { pos = first % array_size; step = second % (array_size - 1) + 1 }

-- The round of the loop after the read.
pub advance : TimeWaster → TimeWaster
advance w =
    let moved = w.pos + w.step in
    record w { pos = if leb array_size moved then moved - array_size else moved }

-- `wasteRandomCycles`, with `s_randomValues`; none when the rounds are used up.
pub waste_random_cycles : (ℕ → ℕ) → ℕ → TimeWaster → Option TimeWaster
unfolding advance
waste_random_cycles random_values zero w = none
waste_random_cycles random_values (suc n) w =
    let i = random_values w.pos in
    let rest = waste_random_cycles random_values n (advance w) in
    if bit_and i 7 == 0 then some (advance w) else rest
