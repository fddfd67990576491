-- ===== src/Atomic/Arm/Pair.antt =====
-- turf/c/impl/atomic_gcc_arm.c: the operations on 64 bits, on pairs of 32-bit registers, low word
-- first. The arguments stand in the registers in which the code reads them.
pub mod Laws
mod Tests
use turf.Prelude.{
  ℕ, zero, suc, ◌+◌, ◌*◌, ◌/◌, ◌%◌, ◌^◌, ◌==◌, ◌&&◌, if◌then◌else◌, bit_and, bit_or, none,
}
use turf.Atomic.Bus.{Bus, M, ret, ◌>>=◌, ◌>>◌, ldrex, strex}
use turf.Atomic.Ops.{Fetches}

-- The 64-bit value of a register pair, and the words of a value.
abbrev pub join : ℕ × ℕ → ℕ
join p = p.1 * 2 ^ 32 + p.0

abbrev pub words : ℕ → ℕ × ℕ
words x = (x % 2 ^ 32, x / 2 ^ 32)

abbrev pub ldrexd : M (ℕ × ℕ)
ldrexd = do x ← ldrex; ret (words x)

abbrev pub strexd : ℕ × ℕ → M ℕ
strexd p = strex (join p)

-- `1: ldrexd; op; strexd; cmp #0; bne 1b`
pub pair_loop : (ℕ × ℕ → ℕ × ℕ) → ℕ → M ℕ
unfolding ldrex strex
pair_loop f zero = λ _. none
pair_loop f (suc n) = do
  previous ← ldrexd
  let again = pair_loop f n
  status ← strexd (f previous)
  if status == 0 then ret (join previous) else again

pub load64 : ℕ → M ℕ
unfolding pair_loop
load64 n = pair_loop (λ r. r) n

pub store64 : ℕ → ℕ → M (Unit {0})
unfolding pair_loop
store64 n desired = do previous ← pair_loop (λ r. words desired) n; ret tt

-- `r4`, `r2` hold the expected words; `r6`, `r7` those to store.
pub compare_exchange_words : ℕ → ℕ × ℕ → ℕ × ℕ → M ℕ
unfolding ldrex strex
compare_exchange_words zero expected desired = λ _. none
compare_exchange_words (suc n) expected desired = do
  previous ← ldrexd
  let again = compare_exchange_words n expected desired
  let attempt = strexd desired >>= λ status. if status == 0 then ret (join previous) else again
  if previous.0 == expected.0 && previous.1 == expected.1 then attempt else ret (join previous)

pub compare_exchange64 : ℕ → ℕ → ℕ → M ℕ
unfolding compare_exchange_words
compare_exchange64 n expected desired = compare_exchange_words n (words expected) (words desired)

-- The code is that of the compare-exchange: its only argument, `desired`, stands where that has
-- `expected`, and what is stored comes from `r3` and from the stack, which no argument fills.
pub exchange64 : ℕ → ℕ → ℕ → M ℕ
unfolding compare_exchange_words
exchange64 n left_over desired = compare_exchange_words n (words desired) (words left_over)

-- `adds r6, r0, r4; adc r7, r1, r2`
pub add_words : ℕ → ℕ × ℕ → ℕ × ℕ
add_words operand r =
    let low = r.0 + operand % 2 ^ 32 in
    (low % 2 ^ 32, (r.1 + operand / 2 ^ 32 + low / 2 ^ 32) % 2 ^ 32)

pub fetch_add64 : ℕ → ℕ → M ℕ
unfolding pair_loop add_words
fetch_add64 n operand = pair_loop (add_words operand) n

-- `and r6, r0, r4; and r7, r1, r2`, and `orr` likewise
pub and_words : ℕ → ℕ × ℕ → ℕ × ℕ
and_words operand r =
    (bit_and r.0 (operand % 2 ^ 32) % 2 ^ 32, bit_and r.1 (operand / 2 ^ 32) % 2 ^ 32)

pub or_words : ℕ → ℕ × ℕ → ℕ × ℕ
or_words operand r =
    (bit_or r.0 (operand % 2 ^ 32) % 2 ^ 32, bit_or r.1 (operand / 2 ^ 32) % 2 ^ 32)

pub fetch_and64 : ℕ → ℕ → M ℕ
unfolding pair_loop and_words
fetch_and64 n operand = pair_loop (and_words operand) n

pub fetch_or64 : ℕ → ℕ → M ℕ
unfolding pair_loop or_words
fetch_or64 n operand = pair_loop (or_words operand) n

pub pair_ops : ℕ → Fetches
unfolding compare_exchange64 fetch_add64 fetch_and64 fetch_or64
pair_ops n = record {
  compare_exchange = compare_exchange64 n;
  fetch_add = fetch_add64 n;
  fetch_and = fetch_and64 n;
  fetch_or = fetch_or64 n;
}
