-- ===== src/Numbers/Cover.antt =====
-- The multiples of a number that a prime does not divide reach every residue.
use native.Mathlib.Nat.{pow-suc, mod-lt, mod-eq_of_lt, mod-mod, mod-eq-sub-mod, mul_assoc, mul-one}
use turf.Prelude.{ℕ, suc, ◌+◌, ◌-◌, ◌*◌, ◌%◌, ◌^◌, ◌<◌, ◌≡◌, refl, sym, ap, ◌∙◌, arith}
use turf.Numbers.Congruence.{Congruent, add-Congruent, mul-Congruent}
use turf.Numbers.Prime.{IsPrime}
use turf.Numbers.Fermat.{pow_pred}

-- A factor by which a multiple of `s` is congruent to `d`.
factor :
    (m s d : ℕ) (prime : IsPrime (suc (suc m))) (pos : 0 < s) (less : s < suc (suc m))
    → Congruent (suc (suc m)) (d * s ^ m % suc (suc m) * s) d
factor m s d prime pos less =
    let p = suc (suc m) in
    mul-Congruent p (d * s ^ m % p) (d * s ^ m) s s (mod-mod (d * s ^ m) p) refl
    ∙ ap (λ (t : ℕ). t % p) (mul_assoc d (s ^ m) s ∙ ap (λ (t : ℕ). d * t) (sym (pow-suc s m)))
    ∙ mul-Congruent p d d (s ^ suc m) 1 refl (pow_pred (suc m) s prime pos less)
    ∙ ap (λ (t : ℕ). t % p) (mul-one d)

pub covers :
    (m a s t : ℕ) (prime : IsPrime (suc (suc m))) (pos : 0 < s) (less : s < suc (suc m))
    (low : a < suc (suc m)) (target : t < suc (suc m))
    → (k : ℕ) × (k < suc (suc m)) × ((a + k * s) % suc (suc m) ≡ t)
covers m a s t prime pos less low target =
    let p = suc (suc m) in
    let d = t + p - a in
    let k = d * s ^ m % p in
    let whole : a + d ≡ t + p = omega (arith, low) in
    let turn : (t + p) % p ≡ (t + p - p) % p = mod-eq-sub-mod {n = t + p} {m = p} (omega arith) in
    let back : t + p - p ≡ t = omega arith in
    (
      k,
      mod-lt (d * s ^ m) (omega arith),
      add-Congruent p a a (k * s) d refl (factor m s d prime pos less)
          ∙ ap (λ (x : ℕ). x % p) whole
          ∙ turn
          ∙ ap (λ (x : ℕ). x % p) back
          ∙ mod-eq_of_lt target,
    )
