-- ===== src/Atomic/Arm/Live.antt =====
-- When the loops of turf/c/impl/atomic_gcc_arm.h come to an end.
use turf.Prelude.{
  ℕ, zero, suc, ◌+◌, ◌*◌, ◌<◌, ◌≡◌, true, some, arith, refl, sym, Bool-cases, inl, inr,
}
use turf.Atomic.Bus.{Bus, arrive, put, IsQuiet}
use turf.Atomic.Bus.Laws.{arrive-time, arrive-quiet, arrive_twice-time, IsQuiet-at}
use turf.Atomic.Arm.{llsc_loop}
use turf.Atomic.Arm.Laws.{llsc_loop-suc, linked, tried}

-- `strex` succeeds if nothing happens before it.
held_of_quiet : (b : Bus) → IsQuiet (b.others (suc b.now)) → (tried b).monitor ≡ true
held_of_quiet b q =
    (arrive-quiet (linked b) (
      IsQuiet-at b (linked b) (suc b.now) (linked b).now (sym (arrive-time b).1)
        (sym (arrive-time b).0) q)).1

returns_at_once :
    (f : ℕ → ℕ) (n : ℕ) (b : Bus)
    → (tried b).monitor ≡ true
    → (x : ℕ) × (b' : Bus) × (llsc_loop f (suc n) b ≡ some (x, b'))
returns_at_once f n b held =
    ((arrive b).cell, put (f (arrive b).cell) (tried b), ground (arith, llsc_loop-suc f n b, held))

-- If in one of the `n` rounds nothing happens between `ldrex` and `strex`, the loop returns.
pub llsc_loop-returns :
    (f : ℕ → ℕ) (n i : ℕ) (b : Bus)
    → i < n
    → IsQuiet (b.others (suc (2 * i + b.now)))
    → (x : ℕ) × (b' : Bus) × (llsc_loop f n b ≡ some (x, b'))
llsc_loop-returns f zero i b h q = absurd (omega arith)
llsc_loop-returns f (suc n) zero b h q =
    let held = held_of_quiet b (IsQuiet-at b b _ (suc b.now) refl (omega arith) q) in
    returns_at_once f n b held
llsc_loop-returns f (suc n) (suc i) b h q = elim (Bool-cases (tried b).monitor) [
  | inl held ↦ returns_at_once f n b held
  | inr lost ↦
      let time = arrive_twice-time b (linked b) refl refl in
      let (x, b', e) =
        llsc_loop-returns f n i (tried b) (omega arith)
          (IsQuiet-at b (tried b) _ _ (sym time.1) (omega (arith, time.0)) q) in
      (x, b', ground (arith, llsc_loop-suc f n b, lost, e))
]
