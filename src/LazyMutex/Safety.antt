-- ===== src/LazyMutex/Safety.antt =====
-- turf/impl/Mutex_LazyInit.h: the mutex is constructed once, before any thread locks it.
use turf.Prelude.{
  ℕ, ◌≡◌, ◌≢◌, ◌⊎◌, inl, inr, refl, sym, ap, ◌∙◌, update, Bool-cases, Bool, true, false, Option,
  none, some, arith,
}
use turf.LazyMutex.{
  at, Pc, System, Turn, Reach, outside, checking, spinning, testing, constructing, publishing,
  releasing, ready, holding, call, set_before, unset_before, exchanged, failed, set_meanwhile,
  still_unset, construct, publish, release, locked, unlock, here, next,
}

-- Between the exchange and the store that frees the spin lock.
abbrev in_section : Pc → Bool
in_section testing = true
in_section constructing = true
in_section publishing = true
in_section releasing = true
in_section p = false

-- Past a test or a store that leaves `m_initFlag` set.
abbrev after_init : Pc → Bool
after_init releasing = true
after_init ready = true
after_init holding = true
after_init p = false

record Inv (s : System) : Type 0 where
  free : s.spin_lock ≡ false → (j : ℕ) → in_section (s.pc j) ≡ false
  alone : (j k : ℕ) → in_section (s.pc j) ≡ true → in_section (s.pc k) ≡ true → j ≡ k
  used : (j : ℕ) → after_init (s.pc j) ≡ true → s.init_flag ≡ true
  first : (j : ℕ) → s.pc j ≡ constructing → (s.init_flag ≡ false) × (s.constructed ≡ 0)
  second : (j : ℕ) → s.pc j ≡ publishing → s.constructed ≡ 1
  once : s.init_flag ≡ true → s.constructed ≡ 1
  unset : s.init_flag ≡ false → (s.constructed ≡ 0) ⊎ ((j : ℕ) × (s.pc j ≡ publishing))
  owned : (j : ℕ) → s.pc j ≡ holding → s.owner ≡ some j

-- A step that moves one thread and may change who has locked the mutex.
moved :
    (s : System) (i : ℕ) (p q : Pc) (was : s.pc i ≡ p) (inv : Inv s)
    (section : in_section p ≡ in_section q) (init : after_init q ≡ true → s.init_flag ≡ true)
    (build : q ≡ constructing → (s.init_flag ≡ false) × (s.constructed ≡ 0))
    (p_other : p ≢ publishing) (q_other : q ≢ publishing) (o : Option ℕ)
    (owned : (j : ℕ) → update s.pc i q j ≡ holding → o ≡ some j)
    → Inv (record (at s i q) { owner = o })
moved s i p q was inv section init build p_other q_other o owned = record {
  free = λ e j. ground (arith, inv.free e j, inv.free e i, was, section);
  alone = λ j k hj hk. ground (arith, inv.alone j k, hj, hk, was, section);
  used = λ j h. ground (arith, inv.used j, h, init);
  first = λ j h. ground (arith, inv.first j, h, build);
  second = λ j h. ground (arith, inv.second j, h, q_other);
  once = inv.once;
  unset = λ e. elim (inv.unset e) [
    | inl z ↦ inl z
    | inr (j, h) ↦ inr (j, ground (arith, h, was, p_other))
  ];
  owned = owned;
}

-- Nobody else is in the section where thread `i` is.
others_out :
    (s : System) (i : ℕ) (inv : Inv s) (inside : in_section (s.pc i) ≡ true) (j : ℕ) (other : i ≢ j)
    → in_section (s.pc j) ≡ false
others_out s i inv inside j other = elim (Bool-cases (in_section (s.pc j))) [
  | inl t ↦ absurd (other (inv.alone i j inside t))
  | inr f ↦ f
]

Turn-Inv : {s : System} (i : ℕ) {p : Pc} {t : System} → Turn s i p t → s.pc i ≡ p → Inv s → Inv t
Turn-Inv {s} i call was inv =
    moved s i outside checking was inv refl (λ h. absurd (cc)) (λ h. absurd (cc)) (λ h. cc)
      (λ h. cc) s.owner (λ j h. ground (arith, inv.owned j, h))
Turn-Inv {s} i (set_before set) was inv =
    moved s i checking ready was inv refl (λ h. set) (λ h. absurd (cc)) (λ h. cc) (λ h. cc) s.owner
      (λ j h. ground (arith, inv.owned j, h))
Turn-Inv {s} i (unset_before unset) was inv =
    moved s i checking spinning was inv refl (λ h. absurd (cc)) (λ h. absurd (cc)) (λ h. cc)
      (λ h. cc) s.owner (λ j h. ground (arith, inv.owned j, h))
Turn-Inv {s} i (exchanged zeroed) was inv = record {
  free = λ e j. absurd (cc);
  alone = λ j k hj hk. ground (arith, inv.free zeroed j, inv.free zeroed k, hj, hk);
  used = λ j h. ground (arith, inv.used j, h);
  first = λ j h. ground (arith, inv.first j, h);
  second = λ j h. ground (arith, inv.second j, h);
  once = inv.once;
  unset = λ e. elim (inv.unset e) [ inl z ↦ inl z | inr (j, h) ↦ inr (j, ground (arith, h, was)) ];
  owned = λ j h. ground (arith, inv.owned j, h);
}
Turn-Inv i (failed taken) was inv = inv
Turn-Inv {s} i (set_meanwhile set) was inv =
    moved s i testing releasing was inv refl (λ h. set) (λ h. absurd (cc)) (λ h. cc) (λ h. cc)
      s.owner (λ j h. ground (arith, inv.owned j, h))
Turn-Inv {s} i (still_unset unset) was inv =
    moved s i testing constructing was inv refl (λ h. absurd (cc))
      (λ h. (unset, not_yet (inv.unset unset))) (λ h. cc) (λ h. cc) s.owner
      (λ j h. ground (arith, inv.owned j, h))
  where
    not_yet : (s.constructed ≡ 0) ⊎ ((j : ℕ) × (s.pc j ≡ publishing)) → s.constructed ≡ 0
    not_yet (inl z) = z
    not_yet (inr (j, h)) =
        let same : i ≡ j = inv.alone i j (rw was refl) (rw h refl) in
        let clash : testing ≡ publishing = sym was ∙ ap s.pc same ∙ h in absurd (cc)
Turn-Inv {s} i construct was inv = record {
  free = λ e j. absurd (ground (arith, inv.free e i, was));
  alone = λ j k hj hk. ground (arith, inv.alone j k, inv.alone i j, inv.alone i k, hj, hk, was);
  used = λ j h. ground (arith, inv.used j, h);
  first = λ j h. absurd (ground (arith, inv.alone i j, h, was));
  second = λ j h. omega (arith, (inv.first i was).1);
  once = λ e. absurd (ground (arith, inv.first i was, e));
  unset = λ e. inr (i, ground arith);
  owned = λ j h. absurd (ground (arith, inv.used j, inv.first i was, h));
}
Turn-Inv {s} i publish was inv = record {
  free = λ e j. absurd (ground (arith, inv.free e i, was));
  alone = λ j k hj hk. ground (arith, inv.alone j k, inv.alone i j, inv.alone i k, hj, hk, was);
  used = λ j h. refl;
  first = λ j h. absurd (ground (arith, inv.alone i j, h, was));
  second = λ j h. ground (arith, inv.second j, h);
  once = λ e. inv.second i was;
  unset = λ e. absurd (cc);
  owned = λ j h. ground (arith, inv.owned j, h);
}
Turn-Inv {s} i release was inv = record {
  free = λ e j. ground (arith, others_out s i inv (rw was refl) j);
  alone = λ j k hj hk. ground (arith, inv.alone j k, hj, hk, was);
  used = λ j h. ground (arith, inv.used j, inv.used i, was, h);
  first = λ j h. ground (arith, inv.first j, h);
  second = λ j h. ground (arith, inv.second j, h);
  once = inv.once;
  unset = λ e. absurd (ground (arith, inv.used i, was, e));
  owned = λ j h. ground (arith, inv.owned j, h);
}
Turn-Inv {s} i (locked unowned) was inv =
    moved s i ready holding was inv refl (λ h. inv.used i (rw was refl)) (λ h. absurd (cc))
      (λ h. cc) (λ h. cc) (some i) (λ j h. ground (arith, inv.owned j, unowned, h))
Turn-Inv {s} i unlock was inv =
    moved s i holding outside was inv refl (λ h. absurd (cc)) (λ h. absurd (cc)) (λ h. cc) (λ h. cc)
      none (λ j h. absurd (ground (arith, inv.owned j, inv.owned i, was, h)))

Reach-Inv : {s : System} → Reach s → Inv s
Reach-Inv here = record {
  free = λ e j. refl;
  alone = λ j k hj hk. absurd (cc);
  used = λ j h. absurd (cc);
  first = λ j h. absurd (cc);
  second = λ j h. absurd (cc);
  once = λ e. absurd (cc);
  unset = λ e. inl refl;
  owned = λ j h. absurd (cc);
}
Reach-Inv (next i r turn) = Turn-Inv i turn refl (Reach-Inv r)

-- In every reachable state at most one thread is between `lock()` and `unlock()`; where one is, the
-- mutex has been constructed exactly once, `m_initFlag` is set, as `unlock()` asserts, and no thread
-- is at the construction.
pub locked_once :
    {s : System}
    → Reach s
    → (i j : ℕ) → s.pc i ≡ holding
    → s.pc j ≡ holding
    → (i ≡ j) × (s.constructed ≡ 1) × (s.init_flag ≡ true) × ((k : ℕ) → s.pc k ≢ constructing)
locked_once {s} r i j hi hj =
    let inv = Reach-Inv r in
    let set = inv.used i (rw hi refl) in
    (
      ground (arith, inv.owned i, inv.owned j, hi, hj),
      inv.once set,
      set,
      λ k h. ground (arith, inv.first k, h, set),
    )
