-- ===== src/Numbers/Congruence.antt =====
-- Equality of remainders by `p`, and the operations on it.
use native.Mathlib.Nat.{
  add-mod, pow-suc, pow-zero, mul_comm, mul-add-mod_self_right, add-mul, div-add-mod',
  mul_right_comm,
}
use turf.Prelude.{ℕ, zero, suc, ◌+◌, ◌*◌, ◌/◌, ◌%◌, ◌^◌, ◌≡◌, refl, sym, ap, ap₂, ◌∙◌}

module _ (p : ℕ) where
  abbrev pub Congruent : ℕ → ℕ → Type 0
  Congruent a b = a % p ≡ b % p

  pub add-Congruent : (a b c d : ℕ) → Congruent a b → Congruent c d → Congruent (a + c) (b + d)
  add-Congruent a b c d h k =
      add-mod a c p ∙ ap₂ (λ (s t : ℕ). (s + t) % p) h k ∙ sym (add-mod b d p)

  -- `a * c` is `(a / p * c) * p + a % p * c`.
  mod-mul : (a c : ℕ) → Congruent (a * c) (a % p * c)
  mod-mul a c =
      ap (λ (t : ℕ). t % p)
        (ap (λ (t : ℕ). t * c) (sym (div-add-mod' a p))
          ∙ add-mul (a / p * p) (a % p) c
          ∙ ap (λ (t : ℕ). t + a % p * c) (mul_right_comm (a / p) p c))
      ∙ mul-add-mod_self_right (a / p * c) p (a % p * c)

  pub mul-Congruent : (a b c d : ℕ) → Congruent a b → Congruent c d → Congruent (a * c) (b * d)
  mul-Congruent a b c d h k =
      mod-mul a c
      ∙ ap (λ (t : ℕ). t * c % p) h
      ∙ sym (mod-mul b c)
      ∙ ap (λ (t : ℕ). t % p) (mul_comm b c)
      ∙ mod-mul c b
      ∙ ap (λ (t : ℕ). t * b % p) k
      ∙ sym (mod-mul d b)
      ∙ ap (λ (t : ℕ). t % p) (mul_comm d b)

  pub pow-Congruent : (a b n : ℕ) → Congruent a b → Congruent (a ^ n) (b ^ n)
  pow-Congruent a b zero h = rw (pow-zero a, pow-zero b) refl
  pow-Congruent a b (suc n) h =
      rw (pow-suc a n, pow-suc b n) (mul-Congruent (a ^ n) (b ^ n) a b (pow-Congruent a b n h) h)
