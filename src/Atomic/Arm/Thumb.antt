-- ===== src/Atomic/Arm/Thumb.antt =====
-- turf/c/impl/atomic_gcc_arm.c: the standalone functions for the Thumb mode of ARMv6, at width `w`.
pub mod Laws
use turf.Prelude.{ℕ, ◌+◌, ◌%◌, ◌^◌, bit_and, bit_or}
use turf.Atomic.Bus.{M}
use turf.Atomic.Ops.{Fetches}
use turf.Atomic.Arm.{llsc_loop, compare_exchange}

module _ (w : ℕ) where
  -- `adds r2, r0, r1` in 32 bits; `strexb` and `strexh` store the low bits.
  pub fetch_add : ℕ → ℕ → M ℕ
  unfolding llsc_loop
  fetch_add n operand = llsc_loop (λ r0. (r0 + operand) % 2 ^ 32 % 2 ^ w) n

  -- `and r2, r0, r1`
  pub fetch_and : ℕ → ℕ → M ℕ
  unfolding llsc_loop
  fetch_and n operand = llsc_loop (λ r0. bit_and r0 operand % 2 ^ w) n

  -- `orr r2, r0, r1`
  pub fetch_or : ℕ → ℕ → M ℕ
  unfolding llsc_loop
  fetch_or n operand = llsc_loop (λ r0. bit_or r0 operand % 2 ^ w) n

  pub thumb : ℕ → Fetches
  unfolding compare_exchange fetch_add fetch_and fetch_or
  thumb n = record {
    compare_exchange = compare_exchange w n;
    fetch_add = fetch_add n;
    fetch_and = fetch_and n;
    fetch_or = fetch_or n;
  }

-- The sections of the file.
pub thumb8 : ℕ → Fetches
unfolding thumb
thumb8 = thumb 8

pub thumb16 : ℕ → Fetches
unfolding thumb
thumb16 = thumb 16

pub thumb32 : ℕ → Fetches
unfolding thumb
thumb32 = thumb 32
