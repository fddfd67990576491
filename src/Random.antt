-- ===== src/Random.antt =====
-- turf/extra/Random.h and its source file. What the clock, the timer and the thread's id give is an
-- argument.
pub mod Injective
pub mod Seeded
mod Tests
use turf.Prelude.{ℕ, zero, suc, ◌+◌, ◌*◌, ◌/◌, ◌%◌, ◌^◌, bit_or, bit_xor}
use turf.Util.Hash.{avalanche64}

-- `s[0]` and `s[1]`
pub record Random : Type 0 where
  pub s0 : ℕ
  pub s1 : ℕ

-- `s1 ^= s1 << 23`
abbrev pub mixed : ℕ → ℕ
mixed v = bit_xor v (v * 2 ^ 23 % 2 ^ 64)

-- The state that `next64` leaves.
pub step : Random → Random
step r =
    let v = mixed r.s0 in
    record { s0 = r.s1; s1 = bit_xor (bit_xor (bit_xor v r.s1) (v / 2 ^ 17)) (r.s1 / 2 ^ 26) }

pub next64 : Random → ℕ × Random
unfolding step
next64 r = let t = step r in ((t.s1 + r.s1) % 2 ^ 64, t)

abbrev pub next32 : Random → ℕ × Random
next32 r = let (v, t) = next64 r in (v % 2 ^ 32, t)

abbrev pub next_times : ℕ → Random → Random
next_times zero r = r
next_times (suc n) r = next_times n (next64 r).1

-- The constructor, with the time, the timer and `util::avalanche(TID::getCurrentThreadID()) << 1`.
pub make : ℕ → ℕ → ℕ → Random
unfolding next64
make time timer thread =
    let t = avalanche64 time in
    let u = (avalanche64 timer + thread) % 2 ^ 64 in
    next_times 10 (record { s0 = avalanche64 (bit_or t 1); s1 = avalanche64 (bit_or u 1) })
