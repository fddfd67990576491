-- ===== src/Sequence.antt =====
-- turf/extra/UniqueSequence.h. Words have 32 bits.
pub mod Permute
pub mod Distinct
mod Tests
use turf.Prelude.{ℕ, ◌+◌, ◌-◌, ◌*◌, ◌/◌, ◌%◌, ◌^◌, leb, if◌then◌else◌, bit_xor}

abbrev pub prime : ℕ
prime = 4294967291

pub record UniqueSequence : Type 0 where
  pub cur_index : ℕ
  pub param0 : ℕ
  pub param1 : ℕ

-- The product is made in 64 bits, where it does not wrap; `residue` is below `prime`.
pub permute : ℕ → ℕ
permute x =
    if leb prime x
    then x
    else (let residue = x * x % 2 ^ 64 % prime in
        if leb x (prime / 2) then residue else prime - residue)

pub next : UniqueSequence → ℕ × UniqueSequence
unfolding permute
next s = (
  permute (bit_xor ((permute s.cur_index + s.param0) % 2 ^ 32) s.param1),
  record s { cur_index = (s.cur_index + 1) % 2 ^ 32 },
)
