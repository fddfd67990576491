-- ===== src/Atomic/Arm/Weak.antt =====
-- The weak compare-exchange of turf/c/impl/atomic_gcc_arm.h, and the interface that its operations fill.
use native.Mathlib.Nat.{mod-eq_of_lt}
use turf.Prelude.{
  ℕ, true, false, ◌%◌, ◌^◌, ◌<◌, ◌≤◌, ◌==◌, ==_iff, ◌≡◌, ◌≢◌, some, inl, inr, arith, refl,
  Bool-cases, ◌∙◌, if◌then◌else◌,
}
use turf.Atomic.Bus.{Bus, ◌>>=◌, arrive, strex, put, own, own-arrive}
use turf.Atomic.Bus.Laws.{put-Replaced, arrive-monitor, read-Observed, write-Stores}
use turf.Atomic.Ops.{Relaxed, ComparesWeak, IsAtomic, op_exchange, op_add, op_and, op_or, always}
use turf.Atomic.Arm.{compare_exchange_weak, compare_exchange_weak32, ops, ops8, ops16, ops32}
use turf.Atomic.Arm.Laws.{linked, tried, own-tried, compare_exchange-Compares, rmw-Updates}

compare_exchange_weak-eq :
    (w address left_over e d : ℕ) (b : Bus)
    → compare_exchange_weak w address left_over e d b ≡ (
        if (arrive b).cell == address
        then (if (tried b).monitor
            then some ((true, e), put (d % 2 ^ w) (tried b))
            else some ((false, (arrive b).cell), tried b))
        else some ((left_over == 0, if left_over == 0 then e else (arrive b).cell), linked b))
unfolding compare_exchange_weak
compare_exchange_weak-eq w address left_over e d b =
    elim (Bool-cases ((arrive b).cell == address)) [
      | inl same ↦ elim (Bool-cases (tried b).monitor) [
        | inl held ↦ rw (same, held, compare_exchange_weak, strex, ◌>>=◌) refl
        | inr lost ↦ rw (same, lost, compare_exchange_weak, strex, ◌>>=◌) refl
      ]
      | inr other ↦ rw (other, compare_exchange_weak, ◌>>=◌) refl
    ]

compare_exchange_weak32-ComparesWeak :
    (e d : ℕ) → d < 2 ^ 32 → ComparesWeak e d (compare_exchange_weak32 e d)
unfolding compare_exchange_weak32 compare_exchange_weak
compare_exchange_weak32-ComparesWeak e d fits b b' m s h =
    let step = compare_exchange_weak-eq 32 e 1 e d b in
    elim (Bool-cases ((arrive b).cell == e)) [
      | inl same ↦ elim (Bool-cases (tried b).monitor) [
        | inl held ↦ inl (
            ground (
              arith,
              h,
              step,
              mod-eq_of_lt fits,
              put-Replaced (always d) b (tried b) e (own-tried b)
                  (arrive-monitor (linked b) held ∙ (==_iff _ e).0 same),
            ))
        | inr lost ↦ inr (ground (arith, h, step, own-tried b))
      ]
      | inr other ↦ inr (ground (arith, h, step, own-arrive b))
    ]

-- The widths of which the weak exchange compares with a pointer.
pub data Narrow : Type 0 where
  byte half : Narrow

abbrev pub narrow_bits : Narrow → ℕ
narrow_bits byte = 8
narrow_bits half = 16

abbrev pub narrow_ops : Narrow → ℕ → ℕ → ℕ → Relaxed
narrow_ops byte = ops8
narrow_ops half = ops16

-- On 8 and on 16 bits, if the pointer `expected` is no number of that width, as the cell is: the weak
-- exchange stores nothing, even on a cell that holds `*expected`, and reports success if and only if
-- the register of `status` holds 0 beforehand; if not, it puts what the cell holds in `*expected`.
pub compare_exchange_weak-false_success :
    (width : Narrow) (address left_over n e d : ℕ) (b : Bus)
    → 2 ^ narrow_bits width ≤ address
    → (arrive b).cell < 2 ^ narrow_bits width
    → (b' : Bus) × ((narrow_ops width address left_over n).compare_exchange_weak e d b
        ≡ some ((left_over == 0, if left_over == 0 then e else (arrive b).cell), b'))
      × (b'.cell ≡ (arrive b).cell)
      × (own b'.log ≡ own b.log)
unfolding ops8 ops16 ops
compare_exchange_weak-false_success width address left_over n e d b far fits =
    (linked b, by_width width far fits, refl, own-arrive b)
  where
    at_bits :
        (w : ℕ)
        → 2 ^ w ≤ address
        → (arrive b).cell < 2 ^ w
        → compare_exchange_weak w address left_over e d b
          ≡ some ((left_over == 0, if left_over == 0 then e else (arrive b).cell), linked b)
    at_bits w far fits =
        let differ : (arrive b).cell ≢ address = omega (arith, far, fits) in
        ground (
          arith,
          compare_exchange_weak-eq w address left_over e d b,
          differ,
          (==_iff (arrive b).cell address).0,
        )

    by_width :
        (k : Narrow)
        → 2 ^ narrow_bits k ≤ address
        → (arrive b).cell < 2 ^ narrow_bits k
        → (narrow_ops k address left_over n).compare_exchange_weak e d b
          ≡ some ((left_over == 0, if left_over == 0 then e else (arrive b).cell), linked b)
    by_width byte = at_bits 8
    by_width half = at_bits 16

-- On ARM the operations on 32 bits are atomic.
pub ops32-IsAtomic : (n : ℕ) → IsAtomic 32 (ops32 n)
unfolding ops32 ops
ops32-IsAtomic n = record {
  load = λ b b' x h. inl (read-Observed b b' x h);
  store = λ v fits. write-Stores v;
  compare_exchange = λ e d he hd. compare_exchange-Compares 32 n e d hd;
  compare_exchange_weak = λ e d he hd. compare_exchange_weak32-ComparesWeak e d hd;
  exchange = rmw-Updates 32 compare_exchange_weak32 n (omega arith) op_exchange;
  fetch_add = rmw-Updates 32 compare_exchange_weak32 n (omega arith) op_add;
  fetch_and = rmw-Updates 32 compare_exchange_weak32 n (omega arith) op_and;
  fetch_or = rmw-Updates 32 compare_exchange_weak32 n (omega arith) op_or;
}
