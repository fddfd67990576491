-- ===== src/Atomic/Ordered/Native.antt =====
-- turf/impl/Atomic_Native.h: the classes for bool and for pointers, and what the classes for integers
-- add to the operations of turf/c/atomic.h. A pointer stands as its address, a signed operand as its
-- word; `MemoryOrder` has the values of `turf_memoryOrder_t`, and Consume is Acquire.
pub mod Laws
mod Tests
use turf.Prelude.{
  ℕ, ◌+◌, ◌-◌, ◌%◌, ◌^◌, ◌==◌, if◌then◌else◌, Bool, true, false, not, Option, none, some,
}
use turf.Atomic.Bus.{M, ret, ◌>>=◌, ◌>>◌}
use turf.Atomic.Ordered.{Order, relaxed, acquire, release, acq_rel, Ordered}

-- The assertion of `load`, and that of `store`.
abbrev pub is_load_order : Order → Bool
is_load_order relaxed = true
is_load_order acquire = true
is_load_order release = false
is_load_order acq_rel = false

abbrev pub is_store_order : Order → Bool
is_store_order relaxed = true
is_store_order release = true
is_store_order acquire = false
is_store_order acq_rel = false

-- none where the assertion fails.
abbrev pub asserted : {A : Type 0} → Bool → M A → Option (M A)
asserted true m = some m
asserted false m = none

-- `(uint8_t) value` and `!!value`
abbrev pub word : Bool → ℕ
word true = 1
word false = 0

abbrev pub truth : ℕ → Bool
truth v = not (v == 0)

-- `compareExchangeStrong` and `compareExchangeWeak` yield what they return, and what `expected` holds
-- afterwards.
pub record Class (A : Type 0) : Type 1 where
  pub load : Order → Option (M A)
  pub store : A → Order → Option (M (Unit {0}))
  pub compare_exchange : A → A → Order → M A
  pub compare_exchange_strong : A → A → Order → M (Bool × A)
  pub exchange : A → Order → M A

-- `Atomic_Native<bool>`, over the 8-bit operations.
pub strong_bool : Ordered → Bool → Bool → Order → M (Bool × Bool)
strong_bool o expected desired order = do
  previous ← o.compare_exchange (word expected) (word desired) order
  let result = previous == word expected
  ret (result, if result then expected else truth previous)

-- `desired` is a u8.
pub weak_bool : Ordered → Bool → ℕ → Order → Order → M (Bool × Bool)
weak_bool o expected desired success failure = do
  r ← o.compare_exchange_weak (word expected) desired success failure
  ret (r.0, if r.0 then expected else truth r.1)

pub exchange_bool : Ordered → Bool → Order → M Bool
exchange_bool o desired order = do previous ← o.exchange (word desired) order; ret (truth previous)

pub native_bool : Ordered → Class Bool
unfolding strong_bool exchange_bool
native_bool o = record {
  load = λ order. asserted (is_load_order order) (o.load order >>= λ v. ret (truth v));
  store = λ value order. asserted (is_store_order order) (o.store (word value) order);
  compare_exchange = λ expected desired order.
      (o.compare_exchange (word expected) (word desired) order >>= λ v. ret (truth v));
  compare_exchange_strong = strong_bool o;
  exchange = exchange_bool o;
}

-- `Atomic_Native<T*>`, over the operations on pointers.
pub strong_ptr : Ordered → ℕ → ℕ → Order → M (Bool × ℕ)
strong_ptr o expected desired order = do
  previous ← o.compare_exchange expected desired order
  let result = previous == expected
  ret (result, if result then expected else previous)

pub native_ptr : Ordered → Class ℕ
unfolding strong_ptr
native_ptr o = record {
  load = λ order. asserted (is_load_order order) (o.load order);
  store = λ value order. asserted (is_store_order order) (o.store value order);
  compare_exchange = o.compare_exchange;
  compare_exchange_strong = strong_ptr o;
  exchange = o.exchange;
}

pub weak_ptr : Ordered → ℕ → ℕ → Order → Order → M (Bool × ℕ)
weak_ptr o = o.compare_exchange_weak

-- `fetchSub` of the classes for integers of `w` bits.
pub fetch_sub : ℕ → Ordered → ℕ → Order → M ℕ
fetch_sub w o operand order = o.fetch_add ((2 ^ w - operand) % 2 ^ w) order
