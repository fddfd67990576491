-- ===== src/Atomic/Ordered/Sections.antt =====
-- turf/c/atomic.h over turf/c/impl/atomic_gcc_x86-64.h on a 64-bit processor, a section of the two
-- headers for each width, and the pointers.
mod Tests
use turf.Prelude.{ℕ, ◌^◌, ◌<◌, ◌≡◌, some}
use turf.Atomic.Bus.{Bus}
use turf.Atomic.Ops.{Relaxed, IsAtomic, Rmw, meaning}
use turf.Atomic.X86.{ops8, ops16, ops32, ops64}
use turf.Atomic.X86.Laws.{ops-IsAtomic}
use turf.Atomic.Ordered.{
  Order, Ordered, rmw_ordered, ordered, ordered8, ordered16, ordered32, ordered64, ordered_ptr8,
}
use turf.Atomic.Ordered.Laws.{ReplacedFenced, ordered_rmw-ReplacedFenced}

pub data Width : Type 0 where
  w8 w16 w32 w64 ptr : Width

abbrev pub bits : Width → ℕ
bits w8 = 8
bits w16 = 16
bits w32 = 32
bits w64 = 64
bits ptr = 64

abbrev pub header : Width → ℕ → Ordered
header w8 n = ordered8 (ops8 n)
header w16 n = ordered16 (ops16 n)
header w32 n = ordered32 (ops32 n)
header w64 n = ordered64 (ops64 n)
header ptr n = ordered_ptr8 (ops64 n)

-- With GCC on a 64-bit x86 processor, an exchange, fetchAdd, fetchAnd or fetchOr of atomic.h on 8, 16,
-- 32 or 64 bits or on a pointer, with any memory order, on an operand `k` of that width, that returns
-- has replaced what it returns in one store, after a release fence if the order is release or
-- acq_rel, and before an acquire fence if the order is acquire or acq_rel; this thread has made no
-- other store and no other fence.
pub header_rmw-ReplacedFenced :
    (width : Width) (n : ℕ) (op : Rmw) (order : Order) (k : ℕ)
    → k < 2 ^ bits width
    → (b b' : Bus) (x : ℕ) → rmw_ordered (header width n) op k order b ≡ some (x, b')
    → ReplacedFenced (meaning (bits width) op k) order b x b'
unfolding ordered8 ordered16 ordered32 ordered64 ordered_ptr8 ops8 ops16 ops32 ops64
header_rmw-ReplacedFenced w8 n = ordered_rmw-ReplacedFenced 8 (ops8 n) (ops-IsAtomic 8 n)
header_rmw-ReplacedFenced w16 n = ordered_rmw-ReplacedFenced 16 (ops16 n) (ops-IsAtomic 16 n)
header_rmw-ReplacedFenced w32 n = ordered_rmw-ReplacedFenced 32 (ops32 n) (ops-IsAtomic 32 n)
header_rmw-ReplacedFenced w64 n = ordered_rmw-ReplacedFenced 64 (ops64 n) (ops-IsAtomic 64 n)
header_rmw-ReplacedFenced ptr n = ordered_rmw-ReplacedFenced 64 (ops64 n) (ops-IsAtomic 64 n)
