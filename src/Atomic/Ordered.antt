-- ===== src/Atomic/Ordered.antt =====
-- turf/c/atomic.h: the operations with a memory order, over the relaxed ones of a platform.
pub mod Laws
mod Tests
pub mod Sections
pub mod Platforms
pub mod Native
use turf.Prelude.{ℕ, Bool, true, false, ◌||◌, if◌then◌else◌}
use turf.Atomic.Bus.{M, ret, ◌>>=◌, ◌>>◌, fence, acquire_fence, release_fence}
use turf.Atomic.Ops.{Relaxed, Rmw, op_exchange, op_add, op_and, op_or}

-- `turf_memoryOrder_t`
pub data Order : Type 0 where
  relaxed acquire release acq_rel : Order

abbrev pub is_acquire : Order → Bool
is_acquire acquire = true
is_acquire acq_rel = true
is_acquire relaxed = false
is_acquire release = false

abbrev pub is_release : Order → Bool
is_release release = true
is_release acq_rel = true
is_release relaxed = false
is_release acquire = false

abbrev pub skip : M (Unit {0})
skip = ret tt

abbrev pub release_if : Bool → M (Unit {0})
release_if o = if o then fence release_fence else skip

abbrev pub acquire_if : Bool → M (Unit {0})
acquire_if o = if o then fence acquire_fence else skip

pub record Ordered : Type 0 where
  pub load : Order → M ℕ
  pub store : ℕ → Order → M (Unit {0})
  pub compare_exchange : ℕ → ℕ → Order → M ℕ
  pub compare_exchange_weak : ℕ → ℕ → (success failure : Order) → M (Bool × ℕ)
  pub exchange : ℕ → Order → M ℕ
  pub fetch_add : ℕ → Order → M ℕ
  pub fetch_and : ℕ → Order → M ℕ
  pub fetch_or : ℕ → Order → M ℕ

-- The body that `compareExchange`, `exchange`, `fetchAdd`, `fetchAnd` and `fetchOr` share.
pub fenced : M ℕ → Order → M ℕ
fenced m order = do
  release_if (is_release order)
  result ← m
  acquire_if (is_acquire order)
  ret result

pub load : M ℕ → Order → M ℕ
load m order = do result ← m; acquire_if (is_acquire order); ret result

pub store : M (Unit {0}) → Order → M (Unit {0})
store m order = do release_if (is_release order); m

pub fenced_weak : M (Bool × ℕ) → Order → Order → M (Bool × ℕ)
fenced_weak m success failure = do
  release_if (is_release success || is_release failure)
  result ← m
  acquire_if (if result.0 then is_acquire success else is_acquire failure)
  ret result

pub ordered : Relaxed → Ordered
unfolding fenced load store fenced_weak
ordered ops = record {
  load = load ops.load;
  store = λ desired. store (ops.store desired);
  compare_exchange = λ expected desired. fenced (ops.compare_exchange expected desired);
  compare_exchange_weak =
      λ expected desired. fenced_weak (ops.compare_exchange_weak expected desired);
  exchange = λ desired. fenced (ops.exchange desired);
  fetch_add = λ operand. fenced (ops.fetch_add operand);
  fetch_and = λ operand. fenced (ops.fetch_and operand);
  fetch_or = λ operand. fenced (ops.fetch_or operand);
}

abbrev pub rmw_ordered : Ordered → Rmw → ℕ → Order → M ℕ
rmw_ordered o op_exchange = o.exchange
rmw_ordered o op_add = o.fetch_add
rmw_ordered o op_and = o.fetch_and
rmw_ordered o op_or = o.fetch_or

-- The sections of the header, one for each width.
pub ordered8 : Relaxed → Ordered
unfolding ordered
ordered8 = ordered

pub ordered16 : Relaxed → Ordered
unfolding ordered
ordered16 = ordered

pub ordered32 : Relaxed → Ordered
unfolding ordered
ordered32 = ordered

pub ordered64 : Relaxed → Ordered
unfolding ordered
ordered64 = ordered

-- The operations on pointers, for pointers of 4 and of 8 bytes.
pub ordered_ptr4 : Relaxed → Ordered
unfolding ordered32
ordered_ptr4 = ordered32

pub ordered_ptr8 : Relaxed → Ordered
unfolding ordered64
ordered_ptr8 = ordered64
