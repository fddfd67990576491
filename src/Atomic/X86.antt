-- ===== src/Atomic/X86.antt =====
-- turf/c/impl/atomic_gcc_x86-64.h: the operations at width `w`, whose widths differ in the suffix
-- of the opcodes alone, and those on 64 bits of a 32-bit processor. A loop is given `n` rounds.
pub mod Laws
pub mod Wide
mod Tests
use turf.Prelude.{ℕ, zero, suc, ◌+◌, ◌%◌, ◌^◌, Bool, ◌==◌, if◌then◌else◌, bit_and, bit_or, none}
use turf.Atomic.Bus.{Bus, M, ret, ◌>>=◌, read, write, cmpxchg, modify}
use turf.Atomic.Ops.{Relaxed}

-- `1: mov; mov; op; lock; cmpxchg; jne 1b`
pub fetch_loop : (ℕ → ℕ) → ℕ → M ℕ
unfolding read cmpxchg
fetch_loop f zero = λ _. none
fetch_loop f (suc n) = do
  previous ← read
  let again = fetch_loop f n
  r ← cmpxchg previous (f previous)
  if r.1 then ret previous else again

unfoldable pub compare_exchange : ℕ → ℕ → M ℕ
unfolding cmpxchg
compare_exchange expected desired = do r ← cmpxchg expected desired; ret r.0

unfoldable pub compare_exchange_weak : ℕ → ℕ → M (Bool × ℕ)
unfolding cmpxchg
compare_exchange_weak expected desired = do
  r ← cmpxchg expected desired
  let matched = r.0 == expected
  ret (matched, if matched then expected else r.0)

pub exchange : ℕ → M ℕ
unfolding modify
exchange desired = modify (λ previous. desired)

module _ (w : ℕ) where
  unfoldable pub fetch_add : ℕ → M ℕ
  unfolding modify
  fetch_add operand = modify (λ previous. (previous + operand) % 2 ^ w)

  pub fetch_and : ℕ → ℕ → M ℕ
  unfolding fetch_loop
  fetch_and n operand = fetch_loop (λ temp. bit_and temp operand % 2 ^ w) n

  pub fetch_or : ℕ → ℕ → M ℕ
  unfolding fetch_loop
  fetch_or n operand = fetch_loop (λ temp. bit_or temp operand % 2 ^ w) n

  unfoldable pub ops : ℕ → Relaxed
  unfolding read write compare_exchange compare_exchange_weak exchange fetch_add fetch_and fetch_or
  ops n = record {
    load = read;
    store = write;
    compare_exchange = compare_exchange;
    compare_exchange_weak = compare_exchange_weak;
    exchange = exchange;
    fetch_add = fetch_add;
    fetch_and = fetch_and n;
    fetch_or = fetch_or n;
  }

-- The sections of the header.
unfoldable pub ops8 : ℕ → Relaxed
unfolding ops
ops8 = ops 8

unfoldable pub ops16 : ℕ → Relaxed
unfolding ops
ops16 = ops 16

unfoldable pub ops32 : ℕ → Relaxed
unfolding ops
ops32 = ops 32

unfoldable pub ops64 : ℕ → Relaxed
unfolding ops
ops64 = ops 64
