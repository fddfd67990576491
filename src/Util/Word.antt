-- ===== src/Util/Word.antt =====
-- turf/Util.h, the arithmetic on machine words. A word is a number below `2 ^ 32` or `2 ^ 64`;
-- `ureg` is taken at 64 bits. The signed overloads of `roundUpPowerOf2` cast to these and back.
pub mod Align
pub mod PowerOf2
pub mod Count
mod Tests
use turf.Prelude.{
  ℕ, zero, suc, ◌+◌, ◌-◌, ◌*◌, ◌/◌, ◌%◌, ◌^◌, bit_and, bit_or, Bool, ◌==◌, if◌then◌else◌, ltb,
  Option, none, some,
}

-- `(v + a - 1) & ~(a - 1)`
pub align : ℕ → ℕ → ℕ
align v a =
    let mask = (a + 2 ^ 64 - 1) % 2 ^ 64 in
    bit_and ((v + a + 2 ^ 64 - 1) % 2 ^ 64) (2 ^ 64 - 1 - mask)

-- `v |= v >> k`
pub smear : ℕ → ℕ → ℕ
smear k v = bit_or v (v / 2 ^ k)

pub round_up_power_of2_32 : ℕ → ℕ
unfolding smear
round_up_power_of2_32 v =
    let v0 = (v + 2 ^ 32 - 1) % 2 ^ 32 in
    let v1 = smear 1 v0 in
    let v2 = smear 2 v1 in
    let v3 = smear 4 v2 in let v4 = smear 8 v3 in let v5 = smear 16 v4 in (v5 + 1) % 2 ^ 32

pub round_up_power_of2_64 : ℕ → ℕ
unfolding smear
round_up_power_of2_64 v =
    let v0 = (v + 2 ^ 64 - 1) % 2 ^ 64 in
    let v1 = smear 1 v0 in
    let v2 = smear 2 v1 in
    let v3 = smear 4 v2 in
    let v4 = smear 8 v3 in let v5 = smear 16 v4 in let v6 = smear 32 v5 in (v6 + 1) % 2 ^ 64

-- `(v & (v - 1)) == 0`
pub is_power_of2 : ℕ → Bool
is_power_of2 v = bit_and v ((v + 2 ^ 64 - 1) % 2 ^ 64) == 0

-- The `while (mask)` loop with its two variables; `none` means that the fuel ran out.
pub count_loop : ℕ → ℕ → ℕ → Option ℕ
count_loop zero mask count = none
count_loop (suc fuel) mask count =
    let rest = count_loop fuel (mask / 2) ((count + bit_and mask 1) % 2 ^ 64) in
    if mask == 0 then some count else rest

-- A 64-bit mask is empty after 64 rounds, and the test is made once more.
pub count_set_bits : ℕ → Option ℕ
count_set_bits mask = count_loop 65 mask 0
