-- ===== src/Atomic/Arm.antt =====
-- turf/c/impl/atomic_gcc_arm.h: loops of `ldrex` and `strex` on 8, 16 and 32 bits. A loop
-- is given `n` rounds.
pub mod Laws
mod Tests
pub mod Live
pub mod Weak
pub mod Pair
pub mod Thumb
use turf.Prelude.{
  ℕ, zero, suc, ◌+◌, ◌%◌, ◌^◌, Bool, ◌==◌, if◌then◌else◌, not, bit_and, bit_or, none,
}
use turf.Atomic.Bus.{Bus, M, ret, ◌>>=◌, read, write, ldrex, strex}
use turf.Atomic.Ops.{Relaxed}

-- `1: ldrex; op; strex; cmp #0; bne 1b`
unfoldable pub llsc_loop : (ℕ → ℕ) → ℕ → M ℕ
unfolding ldrex strex
llsc_loop f zero = λ _. none
llsc_loop f (suc n) = do
  previous ← ldrex
  let again = llsc_loop f n
  status ← strex (f previous)
  if status == 0 then ret previous else again

module _ (w : ℕ) where
  -- `strexb` and `strexh` store the low bits of the register.
  unfoldable pub compare_exchange : ℕ → ℕ → ℕ → M ℕ
  unfolding ldrex strex
  compare_exchange zero expected desired = λ _. none
  compare_exchange (suc n) expected desired = do
    previous ← ldrex
    let again = compare_exchange n expected desired
    let attempt = strex (desired % 2 ^ w) >>= λ status. if status == 0 then ret previous else again
    if previous == expected then attempt else ret previous

  -- On 8 and on 16 bits the operand of `cmp` is the pointer `expected`, here `address`, and `status` is
  -- an output of the assembly block only: where the comparison fails, `strex` is skipped and `status`
  -- is what its register happened to hold, `left_over`.
  pub compare_exchange_weak : ℕ → ℕ → ℕ → ℕ → M (Bool × ℕ)
  unfolding ldrex strex
  compare_exchange_weak address left_over expected desired = do
    previous ← ldrex
    status ← (if previous == address then strex (desired % 2 ^ w) else ret left_over)
    ret (status == 0, if status == 0 then expected else previous)

  pub exchange : ℕ → ℕ → M ℕ
  unfolding llsc_loop
  exchange n desired = llsc_loop (λ previous. desired % 2 ^ w) n

  -- The sum is made in a register of 32 bits.
  unfoldable pub fetch_add : ℕ → ℕ → M ℕ
  unfolding llsc_loop
  fetch_add n operand = llsc_loop (λ desired. (desired + operand) % 2 ^ 32 % 2 ^ w) n

  pub fetch_and : ℕ → ℕ → M ℕ
  unfolding llsc_loop
  fetch_and n operand = llsc_loop (λ desired. bit_and desired operand % 2 ^ w) n

  pub fetch_or : ℕ → ℕ → M ℕ
  unfolding llsc_loop
  fetch_or n operand = llsc_loop (λ desired. bit_or desired operand % 2 ^ w) n

  -- A section, with its weak exchange.
  unfoldable pub ops : (ℕ → ℕ → M (Bool × ℕ)) → ℕ → Relaxed
  unfolding read write compare_exchange exchange fetch_add fetch_and fetch_or
  ops weak n = record {
    load = read;
    store = write;
    compare_exchange = compare_exchange n;
    compare_exchange_weak = weak;
    exchange = exchange n;
    fetch_add = fetch_add n;
    fetch_and = fetch_and n;
    fetch_or = fetch_or n;
  }

-- On 32 bits the operand of `cmp` is `*expected`, and the assembly block sets `status` to 1 first.
pub compare_exchange_weak32 : ℕ → ℕ → M (Bool × ℕ)
unfolding ldrex strex
compare_exchange_weak32 expected desired = do
  previous ← ldrex
  status ← (if previous == expected then strex (desired % 2 ^ 32) else ret 1)
  ret (status == 0, if status == 0 then expected else previous)

-- The sections of the header.
unfoldable pub ops8 : ℕ → ℕ → ℕ → Relaxed
unfolding ops compare_exchange_weak
ops8 address left_over = ops 8 (compare_exchange_weak 8 address left_over)

unfoldable pub ops16 : ℕ → ℕ → ℕ → Relaxed
unfolding ops compare_exchange_weak
ops16 address left_over = ops 16 (compare_exchange_weak 16 address left_over)

unfoldable pub ops32 : ℕ → Relaxed
unfolding ops compare_exchange_weak32
ops32 = ops 32 compare_exchange_weak32
