-- ===== src/RaceDetector/Safety.antt =====
-- What it means that no guard has called TURF_DEBUG_BREAK.
use turf.Prelude.{ℕ, true, ◌≡◌, ◌≢◌, refl, update, arith}
use turf.RaceDetector.{
  Pc, outside, inside, System, Turn, enter, enter_again, leave, Reach, here, next,
}

record Inv (s : System) : Type 0 where
  alone : (j k : ℕ) → s.pc j ≡ inside → s.pc k ≡ inside → j ≡ k
  noticed : (j : ℕ) → s.pc j ≡ inside → s.entered ≡ true
  entered_by : s.entered ≡ true → (j : ℕ) × (s.pc j ≡ inside)

Turn-Inv :
    {s : System} (i : ℕ) {p : Pc} {t : System} (turn : Turn s i p t) (was : s.pc i ≡ p)
    (inv : s.breaks ≡ 0 → Inv s) (none : t.breaks ≡ 0)
    → Inv t
Turn-Inv {s} i (enter free) was inv none =
    let old = inv none in
    record {
      alone = λ j k hj hk. ground (arith, old.noticed j, old.noticed k, hj, hk, free);
      noticed = λ j h. refl;
      entered_by = λ e. (i, ground arith);
    }
Turn-Inv {s} i (enter_again busy) was inv none = absurd (omega (arith, none))
Turn-Inv {s} i leave was inv none =
    let old = inv none in
    let out : (j : ℕ) → update s.pc i outside j ≢ inside =
      λ j h. ground (arith, old.alone i j, was, h) in
    record {
      alone = λ j k hj hk. absurd (out j hj);
      noticed = λ j h. absurd (out j h);
      entered_by = λ e. absurd (cc);
    }

Reach-Inv : {s : System} → Reach s → s.breaks ≡ 0 → Inv s
Reach-Inv here none = record {
  alone = λ j k hj hk. absurd (cc);
  noticed = λ j h. absurd (cc);
  entered_by = λ e. absurd (cc);
}
Reach-Inv (next i r turn) none = Turn-Inv i turn refl (Reach-Inv r) none

-- In every reachable state in which no guard has called TURF_DEBUG_BREAK, no two threads are in the
-- guarded section.
pub no_break-alone :
    (s : System) (r : Reach s) (none : s.breaks ≡ 0) (j k : ℕ) (at_j : s.pc j ≡ inside)
    (at_k : s.pc k ≡ inside)
    → j ≡ k
no_break-alone s r none j k at_j at_k = (Reach-Inv r none).alone j k at_j at_k

-- In every reachable state without a break, if a thread outside of the section has a step after which
-- there is one, another thread is in the section.
pub break_justified :
    (s t : System) (r : Reach s) (none : s.breaks ≡ 0) (i : ℕ) (turn : Turn s i (s.pc i) t)
    (broke : t.breaks ≢ 0)
    → (j : ℕ) × (j ≢ i) × (s.pc j ≡ inside)
break_justified s t r none i turn broke = by_turn (s.pc i) t refl turn broke
  where
    by_turn :
        (p : Pc) (u : System) (was : s.pc i ≡ p) (turned : Turn s i p u) (now : u.breaks ≢ 0)
        → (j : ℕ) × (j ≢ i) × (s.pc j ≡ inside)
    by_turn outside u was (enter free) now = absurd (now none)
    by_turn outside u was (enter_again busy) now =
        let (j, at) = (Reach-Inv r none).entered_by busy in
        (j, λ same. ground (arith, at, was, same), at)
    by_turn inside u was leave now = absurd (now none)
