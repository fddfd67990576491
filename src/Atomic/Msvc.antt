-- ===== src/Atomic/Msvc.antt =====
-- turf/c/impl/atomic_msvc.h: the operations at one width, over the compiler's intrinsics, which are
-- parameters, and those on 64 bits where a pointer has 32. A loop is given `n` rounds.
pub mod Laws
mod Tests
use turf.Prelude.{
  ℕ, zero, suc, ◌+◌, ◌%◌, ◌^◌, ◌<◌, Bool, ◌==◌, if◌then◌else◌, bit_and, bit_or, none, some, ◌≡◌,
  ◌≢◌, ◌⊎◌, List, [], ◌∷◌,
}
use turf.Atomic.Bus.{
  Event, mine, theirs, acquire_fence, release_fence, Bus, M, ret, ◌>>=◌, read, write, read_torn,
  cmpxchg,
}
use turf.Atomic.Ops.{Relaxed, always, add_word, and_word, or_word}
use turf.Atomic.X86.Wide.{load64, store_loop}

-- `_InterlockedCompareExchange` takes the value to store before the one to compare with.
pub record Intrinsics : Type 0 where
  pub interlocked_compare_exchange : (exchange comparand : ℕ) → M ℕ
  pub interlocked_exchange : ℕ → M ℕ
  pub interlocked_exchange_add : ℕ → M ℕ
  pub interlocked_and : ℕ → M ℕ
  pub interlocked_or : ℕ → M ℕ

-- The stores of this thread alone: an intrinsic is a memory barrier too, of which nothing is said.
abbrev pub stores : List Event → List Event
stores [] = []
stores (mine x y ∷ l) = mine x y ∷ stores l
stores (theirs x y ∷ l) = stores l
stores (acquire_fence ∷ l) = stores l
stores (release_fence ∷ l) = stores l

-- This thread replaced `x` by `f x` in one store, and that is the last one.
pub record ReplacedOnce (f : ℕ → ℕ) (b : Bus) (x : ℕ) (b' : Bus) : Type 0 where
  pub cell : b'.cell ≡ f x
  pub once : stores b'.log ≡ mine x (f x) ∷ stores b.log

abbrev pub UpdatesOnce : (ℕ → ℕ) → M ℕ → Type 0
UpdatesOnce f m = (b b' : Bus) (x : ℕ) → m b ≡ some (x, b') → ReplacedOnce f b x b'

-- What a compare-exchange that returns `x` has done.
abbrev pub Exchanged : ℕ → ℕ → Bus → ℕ → Bus → Type 0
Exchanged comparand exchange b x b' =
    ((x ≡ comparand) × ReplacedOnce (always exchange) b x b')
    ⊎ ((x ≢ comparand) × (b'.cell ≡ x) × (stores b'.log ≡ stores b.log))

-- What the documentation says of `_InterlockedCompareExchange`: it is atomic, and returns the initial
-- value.
abbrev pub IsInterlocked : Intrinsics → Type 0
IsInterlocked i =
    (exchange comparand : ℕ) (b b' : Bus) (x : ℕ)
    → i.interlocked_compare_exchange exchange comparand b ≡ some (x, b')
    → Exchanged comparand exchange b x b'

module _ (i : Intrinsics) where
  pub compare_exchange : ℕ → ℕ → M ℕ
  compare_exchange expected desired = i.interlocked_compare_exchange desired expected

  pub compare_exchange_weak : ℕ → ℕ → M (Bool × ℕ)
  compare_exchange_weak expected desired = do
    previous ← i.interlocked_compare_exchange desired expected
    let matched = previous == expected
    ret (matched, if matched then expected else previous)

  unfoldable pub ops : Relaxed
  unfolding read write compare_exchange compare_exchange_weak
  ops = record {
    load = read;
    store = write;
    compare_exchange = compare_exchange;
    compare_exchange_weak = compare_exchange_weak;
    exchange = i.interlocked_exchange;
    fetch_add = i.interlocked_exchange_add;
    fetch_and = i.interlocked_and;
    fetch_or = i.interlocked_or;
  }

  -- `for (;;) { previous = ...(op(expected), expected); if (previous == expected) return; ... }`
  pub retry_loop : (ℕ → ℕ) → ℕ → ℕ → M ℕ
  retry_loop op zero expected = λ _. none
  retry_loop op (suc n) expected = do
    previous ← i.interlocked_compare_exchange (op expected) expected
    let again = retry_loop op n previous
    if previous == expected then ret previous else again

  -- `dummy` is what EDX:EAX happened to hold.
  pub store64 : ℕ → ℕ → ℕ → M (Unit {0})
  unfolding store_loop
  store64 dummy n value = store_loop value n dummy

  pub exchange64 : ℕ → ℕ → M ℕ
  unfolding retry_loop
  exchange64 n desired = do expected ← read_torn; retry_loop (λ previous. desired) n expected

  pub fetch_add64 : ℕ → ℕ → M ℕ
  unfolding retry_loop
  fetch_add64 n operand = do
    expected ← read_torn
    retry_loop (λ previous. (previous + operand) % 2 ^ 64) n expected

  pub fetch_and64 : ℕ → ℕ → M ℕ
  unfolding retry_loop
  fetch_and64 n operand = do
    expected ← read_torn
    retry_loop (λ previous. bit_and previous operand % 2 ^ 64) n expected

  pub fetch_or64 : ℕ → ℕ → M ℕ
  unfolding retry_loop
  fetch_or64 n operand = do
    expected ← read_torn
    retry_loop (λ previous. bit_or previous operand % 2 ^ 64) n expected

  pub wide_ops : ℕ → ℕ → Relaxed
  unfolding load64 store64 compare_exchange compare_exchange_weak exchange64 fetch_add64 fetch_and64
      fetch_or64
  wide_ops dummy n = record {
    load = load64 dummy;
    store = store64 dummy n;
    compare_exchange = compare_exchange;
    compare_exchange_weak = compare_exchange_weak;
    exchange = exchange64 n;
    fetch_add = fetch_add64 n;
    fetch_and = fetch_and64 n;
    fetch_or = fetch_or64 n;
  }

-- The sections of the header.
unfoldable pub msvc8 : Intrinsics → Relaxed
unfolding ops
msvc8 = ops

unfoldable pub msvc16 : Intrinsics → Relaxed
unfolding ops
msvc16 = ops

unfoldable pub msvc32 : Intrinsics → Relaxed
unfolding ops
msvc32 = ops

unfoldable pub msvc64 : Intrinsics → Relaxed
unfolding ops
msvc64 = ops
