-- ===== src/ManualResetEvent/Safety.antt =====
-- turf/impl/ManualResetEvent_CondVar.h: no wake-up is lost.
use turf.Prelude.{ℕ, ◌≡◌, ◌≢◌, refl, update, Bool, true, false, Option, none, some, arith}
use turf.ManualResetEvent.{
  wait, Pc, outside, locking, body, waking_all, asleep, woken, unlocking, System, wake, at, Turn,
  call, locked, set_state, wake_all, clear_state, not_set, is_set, wake_up, relocked, unlocked,
  Reach, here, next,
}

-- Between the lock and the unlock of the mutex.
abbrev inside : Pc → Bool
inside (body c) = true
inside waking_all = true
inside (unlocking c) = true
inside p = false

record Inv (s : System) : Type 0 where
  owned : (j : ℕ) → inside (s.pc j) ≡ true → s.owner ≡ some j
  -- Where a thread sleeps and the state is set, the one that set it has yet to wake it.
  wakes : (j : ℕ) → s.pc j ≡ asleep → s.state ≡ true → (k : ℕ) × (s.pc k ≡ waking_all)
  -- A thread about to return from `wait` has seen the state set, and it still is.
  seen : (j : ℕ) → s.pc j ≡ unlocking wait → s.state ≡ true

-- A step that moves one thread, may change who has locked the mutex, and keeps the state.
moved :
    (s : System) (i : ℕ) (p q : Pc) (o : Option ℕ) (was : s.pc i ≡ p) (inv : Inv s)
    (owned : (j : ℕ) → inside (update s.pc i q j) ≡ true → o ≡ some j) (p_other : p ≢ waking_all)
    (q_other : q ≢ asleep) (set : q ≡ unlocking wait → s.state ≡ true)
    → Inv (record (at s i q) { owner = o })
moved s i p q o was inv owned p_other q_other set = record {
  owned = owned;
  wakes = λ j h e.
      let (k, w) = inv.wakes j (ground (arith, h, q_other)) e in
      (k, ground (arith, w, was, p_other));
  seen = λ j h. ground (arith, inv.seen j, h, set);
}

wake-inside : (p : Pc) → inside (wake p) ≡ inside p
wake-inside outside = refl
wake-inside (locking c) = refl
wake-inside (body c) = refl
wake-inside waking_all = refl
wake-inside asleep = refl
wake-inside woken = refl
wake-inside (unlocking c) = refl

wake_not_asleep : (p : Pc) → wake p ≢ asleep
wake_not_asleep p h = ground (arith, h)

wake_returning : (p : Pc) (h : wake p ≡ unlocking wait) → p ≡ unlocking wait
wake_returning p h = ground (arith, h)

Turn-Inv : {s : System} (i : ℕ) {p : Pc} {t : System} → Turn s i p t → s.pc i ≡ p → Inv s → Inv t
Turn-Inv {s} i (call c) was inv =
    moved s i outside (locking c) s.owner was inv
      (λ j h. ground (arith, inv.owned j, inv.owned i, was, h)) (λ h. cc) (λ h. cc)
      (λ h. absurd (cc))
Turn-Inv {s} i (locked c free) was inv =
    moved s i (locking c) (body c) (some i) was inv (λ j h. ground (arith, inv.owned j, free, h))
      (λ h. cc) (λ h. cc) (λ h. absurd (cc))
Turn-Inv {s} i set_state was inv = record {
  owned = λ j h. ground (arith, inv.owned j, inv.owned i, was, h);
  wakes = λ j h e. (i, ground arith);
  seen = λ j h. refl;
}
Turn-Inv {s} i wake_all was inv = record {
  owned = λ j h. ground (arith, inv.owned j, inv.owned i, wake-inside (s.pc j), was, h);
  wakes = λ j h e. absurd (ground (arith, wake_not_asleep (s.pc j), h));
  seen = λ j h. ground (arith, inv.seen j, wake_returning (s.pc j), h);
}
Turn-Inv {s} i clear_state was inv = record {
  owned = λ j h. ground (arith, inv.owned j, inv.owned i, was, h);
  wakes = λ j h e. absurd (cc);
  seen = λ j h. absurd (ground (arith, inv.owned j, inv.owned i, was, h));
}
Turn-Inv {s} i (not_set unset) was inv = record {
  owned = λ j h. absurd (ground (arith, inv.owned j, inv.owned i, was, h));
  wakes = λ j h e. absurd (cc);
  seen = λ j h. ground (arith, inv.seen j, h);
}
Turn-Inv {s} i (is_set set) was inv =
    moved s i (body wait) (unlocking wait) s.owner was inv
      (λ j h. ground (arith, inv.owned j, inv.owned i, was, h)) (λ h. cc) (λ h. cc) (λ h. set)
Turn-Inv {s} i wake_up was inv =
    moved s i asleep woken s.owner was inv (λ j h. ground (arith, inv.owned j, inv.owned i, was, h))
      (λ h. cc) (λ h. cc) (λ h. absurd (cc))
Turn-Inv {s} i (relocked free) was inv =
    moved s i woken (body wait) (some i) was inv (λ j h. ground (arith, inv.owned j, free, h))
      (λ h. cc) (λ h. cc) (λ h. absurd (cc))
Turn-Inv {s} i (unlocked c) was inv =
    moved s i (unlocking c) outside none was inv
      (λ j h. absurd (ground (arith, inv.owned j, inv.owned i, was, h))) (λ h. cc) (λ h. cc)
      (λ h. absurd (cc))

Reach-Inv : {initial_state : Bool} {s : System} → Reach initial_state s → Inv s
Reach-Inv here = record {
  owned = λ j h. absurd (cc);
  wakes = λ j h e. absurd (cc);
  seen = λ j h. absurd (cc);
}
Reach-Inv (next i r turn) = Turn-Inv i turn refl (Reach-Inv r)

-- In every reachable state in which the event is set and a thread sleeps in `wait`, some thread holds
-- the mutex and is at `wakeAll`: no thread is left asleep on a set event.
pub no_lost_wake :
    {initial_state : Bool} {s : System}
    → Reach initial_state s
    → s.state ≡ true
    → (j : ℕ) → s.pc j ≡ asleep
    → (k : ℕ) × (s.pc k ≡ waking_all) × (s.owner ≡ some k)
no_lost_wake r set j h =
    let inv = Reach-Inv r in let (k, w) = inv.wakes j h set in (k, w, inv.owned k (rw w refl))

-- In every reachable state a thread past the loop of `wait` holds the mutex, and the event is set.
pub wait_seen :
    {initial_state : Bool} {s : System}
    → Reach initial_state s
    → (j : ℕ) → s.pc j ≡ unlocking wait
    → (s.state ≡ true) × (s.owner ≡ some j)
wait_seen r j h = ((Reach-Inv r).seen j h, (Reach-Inv r).owned j (rw h refl))
