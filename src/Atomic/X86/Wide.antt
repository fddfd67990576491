-- ===== src/Atomic/X86/Wide.antt =====
-- turf/c/impl/atomic_gcc_x86-64.h: 64 bits on a 32-bit processor, by `cmpxchg8b`. A plain read of
-- 64 bits is two reads and may tear. `store64` uses `cmpxchg8b` with no lock prefix; as its comment
-- says, the store itself is taken to be atomic. A loop is given `n` rounds.
pub mod Laws
mod Tests
use turf.Prelude.{ℕ, zero, suc, ◌+◌, ◌%◌, ◌^◌, ◌==◌, if◌then◌else◌, bit_and, bit_or, none}
use turf.Atomic.Bus.{Bus, M, ret, ◌>>=◌, read_torn, cmpxchg}
use turf.Atomic.Ops.{Relaxed}
use turf.Atomic.X86.{compare_exchange, compare_exchange_weak}

-- `dummy` is what ECX:EBX happened to hold.
unfoldable pub load64 : ℕ → M ℕ
load64 dummy = do r ← cmpxchg dummy dummy; ret r.0

-- `1: cmpxchg8b; jne 1b`
unfoldable pub store_loop : ℕ → ℕ → ℕ → M (Unit {0})
store_loop desired zero expected = λ _. none
store_loop desired (suc n) expected = do
  r ← cmpxchg expected desired
  let again = store_loop desired n r.0
  if r.1 then ret tt else again

pub store64 : ℕ → ℕ → M (Unit {0})
unfolding store_loop
store64 n desired = do expected ← read_torn; store_loop desired n expected

pub exchange_loop : ℕ → ℕ → ℕ → M ℕ
exchange_loop desired zero previous = λ _. none
exchange_loop desired (suc n) previous = do
  probed ← compare_exchange previous desired
  let again = exchange_loop desired n probed
  if previous == probed then ret previous else again

pub exchange64 : ℕ → ℕ → M ℕ
unfolding exchange_loop
exchange64 n desired = do previous ← read_torn; exchange_loop desired n previous

-- `for (;;) { previous = ...; if (compareExchange(previous, op(previous)) == previous) return }`
pub fetch64_loop : (ℕ → ℕ) → ℕ → M ℕ
fetch64_loop f zero = λ _. none
fetch64_loop f (suc n) = do
  previous ← read_torn
  let again = fetch64_loop f n
  probed ← compare_exchange previous (f previous)
  if probed == previous then ret previous else again

pub fetch_add64 : ℕ → ℕ → M ℕ
unfolding fetch64_loop
fetch_add64 n operand = fetch64_loop (λ previous. (previous + operand) % 2 ^ 64) n

pub fetch_and64 : ℕ → ℕ → M ℕ
unfolding fetch64_loop
fetch_and64 n operand = fetch64_loop (λ previous. bit_and previous operand % 2 ^ 64) n

pub fetch_or64 : ℕ → ℕ → M ℕ
unfolding fetch64_loop
fetch_or64 n operand = fetch64_loop (λ previous. bit_or previous operand % 2 ^ 64) n

-- The whole section.
pub wide_ops : ℕ → ℕ → Relaxed
unfolding load64 store64 exchange64 fetch_add64 fetch_and64 fetch_or64
wide_ops dummy n = record {
  load = load64 dummy;
  store = store64 n;
  compare_exchange = compare_exchange;
  compare_exchange_weak = compare_exchange_weak;
  exchange = exchange64 n;
  fetch_add = fetch_add64 n;
  fetch_and = fetch_and64 n;
  fetch_or = fetch_or64 n;
}
