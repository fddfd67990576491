-- ===== src/SpinLock/Safety.antt =====
-- turf/impl/Mutex_SpinLock.h: which threads hold the lock.
use turf.Prelude.{ℕ, ◌≡◌, ◌≢◌, ◌⊎◌, inl, inr, refl, arith}
use turf.SpinLock.{Pc, System, Turn, Reach, holding, lock, exchanged, failed, unlock, here, next}

-- Either the lock is free and nobody holds it, or it is taken and one thread does.
record Inv (s : System) : Type 0 where
  word : (s.spin_lock ≡ 0) ⊎ (s.spin_lock ≡ 1)
  free : s.spin_lock ≡ 0 → (i : ℕ) → s.pc i ≢ holding
  one : (i j : ℕ) → s.pc i ≡ holding → s.pc j ≡ holding → i ≡ j

Turn-Inv : {s : System} (i : ℕ) {p : Pc} {t : System} → Turn s i p t → s.pc i ≡ p → Inv s → Inv t
Turn-Inv {s} i lock at inv = record {
  word = inv.word;
  free = λ e j h. ground (arith, inv.free e j, h);
  one = λ j k hj hk. ground (arith, inv.one j k, hj, hk);
}
Turn-Inv {s} i (exchanged zeroed) at inv = record {
  word = inr refl;
  free = λ e j h. absurd (omega (arith, e));
  one = λ j k hj hk. ground (arith, inv.free zeroed j, inv.free zeroed k, hj, hk);
}
Turn-Inv i (failed taken) at inv = inv
Turn-Inv {s} i unlock at inv = record {
  word = inl refl;
  free = λ e j h. ground (arith, inv.one j i, at, h);
  one = λ j k hj hk. ground (arith, inv.one j k, hj, hk);
}

Reach-Inv : {s : System} → Reach s → Inv s
Reach-Inv here = record {
  word = inl refl;
  free = λ e i h. ground (arith, h);
  one = λ i j hi hj. ground (arith, hi);
}
Reach-Inv (next i r turn) = Turn-Inv i turn refl (Reach-Inv r)

-- In every reachable state at most one thread is between `lock()` and `unlock()`, and none is if the
-- lock word is 0.
pub mutual_exclusion :
    {s : System}
    → Reach s
    → (i j : ℕ) → s.pc i ≡ holding
    → s.pc j ≡ holding
    → (i ≡ j) × (s.spin_lock ≡ 1)
mutual_exclusion {s} r i j hi hj =
    let inv = Reach-Inv r in
    (
      inv.one i j hi hj,
      elim inv.word [ inl zeroed ↦ absurd (inv.free zeroed i hi) | inr taken ↦ taken ],
    )
