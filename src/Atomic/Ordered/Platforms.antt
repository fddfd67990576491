-- ===== src/Atomic/Ordered/Platforms.antt =====
-- turf/c/atomic.h over turf/c/impl/atomic_gcc_arm.h, a section of the two headers for each width.
mod Tests
use turf.Prelude.{ℕ, ◌^◌, ◌<◌, ◌≤◌, ◌≡◌, Bool, some, arith}
use turf.Atomic.Bus.{Bus, M}
use turf.Atomic.Ops.{Rmw, meaning}
use turf.Atomic.Arm.{compare_exchange_weak, compare_exchange_weak32, ops, ops8, ops16, ops32}
use turf.Atomic.Arm.Laws.{rmw-Updates}
use turf.Atomic.Ordered.{
  Order, Ordered, rmw_ordered, ordered, ordered8, ordered16, ordered32, ordered_ptr4,
}
use turf.Atomic.Ordered.Laws.{ReplacedFenced, updates-ReplacedFenced}

-- The widths of a 32-bit ARM processor that the header itself implements, with its pointers.
pub data ArmWidth : Type 0 where
  a8 a16 a32 aptr : ArmWidth

abbrev pub arm_bits : ArmWidth → ℕ
arm_bits a8 = 8
arm_bits a16 = 16
arm_bits a32 = 32
arm_bits aptr = 32

abbrev pub arm_header : ArmWidth → ℕ → ℕ → ℕ → Ordered
arm_header a8 address left_over n = ordered8 (ops8 address left_over n)
arm_header a16 address left_over n = ordered16 (ops16 address left_over n)
arm_header a32 address left_over n = ordered32 (ops32 n)
arm_header aptr address left_over n = ordered_ptr4 (ops32 n)

module _ (w : ℕ) (weak : ℕ → ℕ → M (Bool × ℕ)) (n : ℕ) (narrow : w ≤ 32) where
  section_rmw :
      (op : Rmw) (order : Order) (k : ℕ)
      → k < 2 ^ w
      → (b b' : Bus) (x : ℕ) → rmw_ordered (ordered (ops w weak n)) op k order b ≡ some (x, b')
      → ReplacedFenced (meaning w op k) order b x b'
  section_rmw op order k fits =
      updates-ReplacedFenced (meaning w op k) (ops w weak n) op order k
        (rmw-Updates w weak n narrow op k fits)

-- With GCC on ARM, whatever the weak exchange finds in the `status` register and as its pointer: an exchange,
-- fetchAdd, fetchAnd or fetchOr of atomic.h on 8, 16 or 32 bits or on a pointer, with any memory
-- order, on an operand `k` of that width, that returns has replaced what it returns in one store,
-- after a release fence if the order is release or acq_rel, and before an acquire fence if the order
-- is acquire or acq_rel; this thread has made no other store and no other fence.
pub arm_header-ReplacedFenced :
    (width : ArmWidth) (address left_over n : ℕ) (op : Rmw) (order : Order) (k : ℕ)
    → k < 2 ^ arm_bits width
    → (b b' : Bus) (x : ℕ)
    → rmw_ordered (arm_header width address left_over n) op k order b ≡ some (x, b')
    → ReplacedFenced (meaning (arm_bits width) op k) order b x b'
unfolding ordered8 ordered16 ordered32 ordered_ptr4 ops8 ops16 ops32
arm_header-ReplacedFenced a8 a l n = section_rmw 8 (compare_exchange_weak 8 a l) n (omega arith)
arm_header-ReplacedFenced a16 a l n = section_rmw 16 (compare_exchange_weak 16 a l) n (omega arith)
arm_header-ReplacedFenced a32 a l n = section_rmw 32 compare_exchange_weak32 n (omega arith)
arm_header-ReplacedFenced aptr a l n = section_rmw 32 compare_exchange_weak32 n (omega arith)
