-- ===== src/TimeWaster/Ends.antt =====
-- The positions that `wasteRandomCycles` comes to, and when it ends.
use native.Mathlib.Nat.{mod-add-mod, suc-mul}
use turf.Prelude.{
  ℕ, zero, suc, ◌+◌, ◌*◌, ◌%◌, ◌≤◌, ◌<◌, ◌==◌, bit_and, Bool-cases, inl, inr, true, some, ◌≡◌, refl,
  ap, ap₂, ◌∙◌, arith,
}
use turf.Numbers.Prime.{IsPrime, divided_by_none, IsPrime-of_trial}
use turf.Numbers.Cover.{covers}
use turf.TimeWaster.{array_size, TimeWaster, make, advance, waste_random_cycles}

pub record IsValid (w : TimeWaster) : Type 0 where
  pub inside : w.pos < array_size
  pub moves : 0 < w.step
  pub short : w.step < array_size

pub make-IsValid : (first second : ℕ) → IsValid (make first second)
make-IsValid first second = record {
  inside = omega arith;
  moves = omega arith;
  short = omega arith;
}

advance-pos : (w : TimeWaster) (v : IsValid w) → (advance w).pos ≡ (w.pos + w.step) % array_size
unfolding advance
advance-pos w v = ground (arith, v.inside, v.short)

advance-IsValid : (w : TimeWaster) (v : IsValid w) → IsValid (advance w)
unfolding advance
advance-IsValid w v = record {
  inside = ground (arith, v.inside, v.short);
  moves = v.moves;
  short = v.short;
}

advance-step : (w : TimeWaster) → (advance w).step ≡ w.step
unfolding advance
advance-step w = refl

-- `k` rounds from the next position, and one more from this one.
later :
    (k : ℕ) (w : TimeWaster) (v : IsValid w)
    → ((advance w).pos + k * (advance w).step) % array_size ≡ (w.pos + suc k * w.step) % array_size
later k w v =
    ap₂ (λ (p s : ℕ). (p + k * s) % array_size) (advance-pos w v) (advance-step w)
    ∙ mod-add-mod (w.pos + w.step) array_size (k * w.step)
    ∙ ap (λ (x : ℕ). x % array_size) (omega (arith, suc-mul k w.step))

-- That the loop ends within `n` rounds, with a waster that has the same step.
abbrev pub Ends : (ℕ → ℕ) → ℕ → TimeWaster → Type 0
Ends values n w =
    (t : TimeWaster) × (waste_random_cycles values n w ≡ some t) × IsValid t × (t.step ≡ w.step)

stopped_now :
    (values : ℕ → ℕ) (n : ℕ) (w : TimeWaster) (v : IsValid w)
    (stop : (bit_and (values w.pos) 7 == 0) ≡ true)
    → Ends values (suc n) w
unfolding waste_random_cycles
stopped_now values n w v stop = (advance w, rw stop refl, advance-IsValid w v, advance-step w)

-- If the value that the loop reads after `k` rounds, fewer than it is given, ends it, it ends.
stopped_by :
    (values : ℕ → ℕ) (k n : ℕ) (w : TimeWaster) (v : IsValid w) (enough : k < n)
    (stop : (bit_and (values ((w.pos + k * w.step) % array_size)) 7 == 0) ≡ true)
    → Ends values n w
unfolding waste_random_cycles
stopped_by values k zero w v enough stop = absurd (omega (arith, enough))
stopped_by values zero (suc n) w v enough stop =
    let here : w.pos ≡ (w.pos + 0 * w.step) % array_size = omega (arith, v.inside) in
    stopped_now values n w v (ap (λ (p : ℕ). bit_and (values p) 7 == 0) here ∙ stop)
stopped_by values (suc k) (suc n) w v enough stop =
    elim (Bool-cases (bit_and (values w.pos) 7 == 0)) [
      | inl now ↦ stopped_now values n w v now
      | inr more ↦
          let (t, e, valid, same) =
            stopped_by values k n (advance w) (advance-IsValid w v) (omega (arith, enough))
              (ap (λ (p : ℕ). bit_and (values p) 7 == 0) (later k w v) ∙ stop) in
          (t, rw more e, valid, same ∙ advance-step w)
    ]

array_size-IsPrime : IsPrime array_size
unfolding divided_by_none
array_size-IsPrime = IsPrime-of_trial array_size 8 (omega arith) refl (omega arith)

-- If some value of the table has its three low bits clear, `wasteRandomCycles` on a waster that the
-- constructor has made, or that an earlier call has left, returns within 65521 rounds; the position
-- is in the table again, and the step is kept.
pub waste_random_cycles-IsValid :
    (values : ℕ → ℕ) (t : ℕ) (inside : t < array_size) (stop : (bit_and (values t) 7 == 0) ≡ true)
    (w : TimeWaster) (v : IsValid w) (n : ℕ) (enough : array_size ≤ n)
    → (u : TimeWaster) × (waste_random_cycles values n w ≡ some u) × IsValid u × (u.step ≡ w.step)
waste_random_cycles-IsValid values t inside stop w v n enough =
    let (k, less, reaches) =
      covers 65519 w.pos w.step t array_size-IsPrime v.moves v.short v.inside inside in
    stopped_by values k n w v (omega (arith, less, enough))
      (ap (λ (p : ℕ). bit_and (values p) 7 == 0) reaches ∙ stop)
