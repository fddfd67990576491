-- ===== src/Atomic/Msvc/Tests.antt =====
-- A run over intrinsics that are the instructions of x86, the compare-exchange between two fences.
use turf.Prelude.{ℕ, refl, inl, inr, [], ◌∷◌, arith}
use turf.Atomic.Bus.{
  mine, theirs, acquire_fence, release_fence, Bus, M, ret, ◌>>=◌, ◌>>◌, >>=-eq-some, fence, modify,
  arrive, put, read_torn, cmpxchg,
}
use turf.Atomic.Bus.Samples.{bus_at, busy}
use turf.Atomic.Ops.{op_add, meaning, always, add_word, and_word, or_word}
use turf.Atomic.X86.{compare_exchange}
use turf.Atomic.X86.Laws.{compare_exchange-Compares}
use turf.Atomic.Msvc.{Intrinsics, IsInterlocked, ReplacedOnce, wide_ops, fetch_add64, retry_loop}
use turf.Atomic.Msvc.Laws.{stores_of_own, Replaced-ReplacedOnce, msvc_rmw-ReplacedOnce}

abbrev with_fences : ℕ → ℕ → M ℕ
unfolding fence
with_fences comparand exchange = do
  fence release_fence
  previous ← compare_exchange comparand exchange
  fence acquire_fence
  ret previous

abbrev x86 : Intrinsics
x86 = record {
  interlocked_compare_exchange = λ exchange comparand. with_fences comparand exchange;
  interlocked_exchange = λ v. modify (always v);
  interlocked_exchange_add = λ v. modify (add_word 64 v);
  interlocked_and = λ v. modify (and_word 64 v);
  interlocked_or = λ v. modify (or_word 64 v);
}

x86-IsInterlocked : IsInterlocked x86
unfolding fence
x86-IsInterlocked exchange comparand b b' x h =
    let after : Bus = record b { log = release_fence ∷ b.log } in
    let (p, c, first, last) =
      >>=-eq-some (compare_exchange comparand exchange) (λ p. fence acquire_fence >> ret p) after b'
        x h in
    elim (compare_exchange-Compares comparand exchange after c p first) [
      | inl (same, done) ↦
          let once : ReplacedOnce (always exchange) after p c = Replaced-ReplacedOnce done in
          inl (ground (arith, last, same), ground (arith, last, once.cell, once.once))
      | inr (differ, seen) ↦
          let never = stores_of_own c.log after.log seen.never in
          inr (
            ground (arith, last, differ),
            ground (arith, last, seen.cell),
            ground (arith, last, never),
          )
    ]

-- The first exchange meets the store of another thread, and the loop goes back.
msvc_rmw-ReplacedOnce_example : ReplacedOnce (meaning 64 op_add 8) busy 7 (
    bus_at 15 3
      (acquire_fence ∷ mine 7 15 ∷ release_fence ∷ acquire_fence ∷ theirs 5 7 ∷ release_fence ∷ []))
unfolding wide_ops fetch_add64 retry_loop compare_exchange read_torn cmpxchg arrive put fence
msvc_rmw-ReplacedOnce_example =
    msvc_rmw-ReplacedOnce x86 x86-IsInterlocked 0 3 op_add 8 busy
      (bus_at 15 3 (
        acquire_fence
        ∷ mine 7 15
        ∷ release_fence
        ∷ acquire_fence
        ∷ theirs 5 7
        ∷ release_fence
        ∷ []))
      7 refl
