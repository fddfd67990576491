-- ===== src/Numbers/Prime.antt =====
-- Prime numbers, and what a prime divides.
use native.Mathlib.Nat.{
  pow-zero, pow-suc, mod-lt, div-add-mod', add-mul, mul_assoc, mul-le-mul, mul-mod_right,
}
use turf.Prelude.{
  ℕ, zero, suc, ◌+◌, ◌*◌, ◌/◌, ◌%◌, ◌^◌, ◌≤◌, ◌<◌, Bool, true, not, ◌&&◌, ◌==◌, ◌≡◌, ◌≢◌, refl, sym,
  ap, ◌∙◌, arith, dec_lt,
}
use turf.Numbers.Congruence.{add-Congruent, mul-Congruent}

pub record IsPrime (p : ℕ) : Type 0 where
  pub large : 1 < p
  pub no_divisor : (d : ℕ) → 1 < d → d < p → p % d ≢ 0

zero-mod : (p : ℕ) → 0 % p ≡ 0
zero-mod p = omega arith

-- If `p` divides `n * b`, it divides the product of its remainder by `n` with `b`.
remainder_divides : (p n b : ℕ) → n * b % p ≡ 0 → p % n * b % p ≡ 0
remainder_divides p n b e =
    let r = p % n in
    let rest : p / n * (n * b) % p ≡ p / n * 0 % p =
      mul-Congruent p (p / n) (p / n) (n * b) 0 refl (e ∙ sym (zero-mod p)) in
    let whole : p / n * (n * b) + r * b ≡ p * b =
      ap (λ (t : ℕ). t + r * b) (sym (mul_assoc (p / n) n b))
      ∙ sym (add-mul (p / n * n) r b)
      ∙ ap (λ (t : ℕ). t * b) (div-add-mod' p n) in
    sym (
      add-Congruent p (p / n * (n * b)) (p / n * 0) (r * b) (r * b) rest refl
      ∙ ap (λ (t : ℕ). t % p) (omega arith))
    ∙ ap (λ (t : ℕ). t % p) whole
    ∙ mul-mod_right p b

-- A prime divides a product only if it divides one of the factors; by the remainders of `p`.
pub divides_factor :
    {p : ℕ} → IsPrime p → (k a b : ℕ) → a < k → 0 < a → a < p → a * b % p ≡ 0 → b % p ≡ 0
divides_factor prime zero a b h pos small e = absurd (omega arith)
divides_factor prime (suc k) zero b h pos small e = absurd (omega arith)
divides_factor {p} prime (suc k) (suc zero) b h pos small e =
    ap (λ (t : ℕ). t % p) (omega arith) ∙ e
divides_factor {p} prime (suc k) (suc (suc a)) b h pos small e =
    let n = suc (suc a) in
    let r = p % n in
    let left : 0 < r = ground (arith, prime.no_divisor n (omega arith) small) in
    let below : r < n = mod-lt p (omega arith) in
    divides_factor prime k r b (omega arith) left (omega arith) (remainder_divides p n b e)

-- None of the `2 ^ k` numbers from `low` on divides `n`.
unfoldable pub divided_by_none : ℕ → ℕ → ℕ → Bool
divided_by_none n zero low = not (n % low == 0)
divided_by_none n (suc k) low = divided_by_none n k low && divided_by_none n k (low + 2 ^ k)

divided_by_none-mod :
    (n k low d : ℕ) → divided_by_none n k low ≡ true → low ≤ d → d < low + 2 ^ k → n % d ≢ 0
unfolding divided_by_none
divided_by_none-mod n zero low d h le lt =
    let e : d ≡ low = omega (arith, pow-zero 2) in rw e (λ none. ground (arith, h, none))
divided_by_none-mod n (suc k) low d h le lt =
    let both : (divided_by_none n k low ≡ true) × (divided_by_none n k (low + 2 ^ k) ≡ true) =
      ground (arith, h) in
    elim (dec_lt d (low + 2 ^ k)) [
      | yes lower ↦ divided_by_none-mod n k low d both.0 le lower
      | no upper ↦
          divided_by_none-mod n k (low + 2 ^ k) d both.1 (omega arith) (omega (arith, pow-suc 2 k))
    ]

cofactor : (e d p : ℕ) → e * d ≡ p → d < p → 2 ≤ e
cofactor zero d p product less = absurd (omega arith)
cofactor (suc zero) d p product less = absurd (omega arith)
cofactor (suc (suc e)) d p product less = omega arith

-- A number that no number up to its root divides is prime.
pub IsPrime-of_trial :
    (p k : ℕ) → 1 < p → divided_by_none p k 2 ≡ true → p < (2 ^ k + 2) * (2 ^ k + 2) → IsPrime p
IsPrime-of_trial p k large h root = record {
  large = large;
  no_divisor = λ d more less divides.
      let e = p / d in
      let product : e * d ≡ p = omega (arith, div-add-mod' p d, divides) in
      elim (dec_lt d (2 ^ k + 2)) [
        | yes low ↦ divided_by_none-mod p k 2 d h (omega arith) (omega arith) divides
        | no high ↦ elim (dec_lt e (2 ^ k + 2)) [
          | yes low ↦
              divided_by_none-mod p k 2 e h (cofactor e d p product less) (omega arith)
                (ap (λ (t : ℕ). t % e) (sym product) ∙ mul-mod_right e d)
          | no too_high ↦ absurd (
              omega (
                arith,
                product,
                mul-le-mul {n₁ = 2 ^ k + 2} {m₁ = 2 ^ k + 2} {n₂ = e} {m₂ = d} (omega arith)
                    (omega arith),
              ))
        ]
      ];
}
