-- ===== src/Util/Word/Count.antt =====
-- turf/Util.h, `countSetBits` and `isPowerOf2`.
use native.Mathlib.Nat.{add-zero, pow-zero, pow-suc, div-one, mod_self, one-le-pow}
use turf.Prelude.{
  ℕ, zero, suc, ◌+◌, ◌-◌, ◌/◌, ◌%◌, ◌^◌, ◌<◌, bit_and, ◌≡◌, refl, ◌∙◌, ap, arith, ◌==◌, ==_iff,
  some, Bool-cases, inl, inr, ◌⊎◌, ◌↔◌, true, dec_lt, sym,
}
use turf.Bits.Test.{digit}
use turf.Bits.Digits.{by_halves, bit_and_step}
use turf.Bits.Mask.{and_mask}
use turf.Bits.Xor.{shr_suc}
use turf.Util.Word.{count_loop, count_set_bits, is_power_of2}

-- How many of the lowest `n` digits are set.
pub digit_sum : ℕ → ℕ → ℕ
digit_sum zero a = 0
digit_sum (suc n) a = digit n a + digit_sum n a

digit_sum-zero : (n : ℕ) → digit_sum n 0 ≡ 0
unfolding digit_sum
digit_sum-zero zero = refl
digit_sum-zero (suc n) = omega (arith, digit_sum-zero n)

digit_sum-suc : (n a : ℕ) → digit_sum (suc n) a ≡ a % 2 + digit_sum n (a / 2)
unfolding digit_sum
digit_sum-suc zero a = simp (pow-zero, div-one)
digit_sum-suc (suc n) a =
    omega (arith, shr_suc a n, ap (λ (t : ℕ). t % 2) (shr_suc a n), digit_sum-suc n a)

-- A mask below `2 ^ n` takes at most `n` rounds.
count_loop_lem :
    (n mask count : ℕ)
    → mask < 2 ^ n
    → count + n < 2 ^ 64
    → count_loop (suc n) mask count ≡ some (count + digit_sum n mask)
unfolding count_loop
count_loop_lem zero mask count h room =
    let e : mask ≡ 0 = omega (arith, pow-zero 2) in rw (e, digit_sum-zero 0, add-zero) refl
count_loop_lem (suc n) mask count h room = elim (Bool-cases (mask == 0)) [
  | inl done ↦ ground (arith, digit_sum-zero (suc n))
  | inr more ↦ rw more (
      count_loop_lem n (mask / 2) ((count + bit_and mask 1) % 2 ^ 64) (omega (arith, pow-suc 2 n))
        (omega (arith, and_mask 1 mask))
      ∙ ap some (omega (arith, and_mask 1 mask, digit_sum-suc n mask)))
]

-- The loop ends on every 64-bit mask, and what it returns is the number of digits that are set.
pub count_set_bits_lem : (mask : ℕ) → mask < 2 ^ 64 → count_set_bits mask ≡ some (digit_sum 64 mask)
unfolding count_set_bits
count_set_bits_lem mask h = count_loop_lem 64 mask 0 h (omega arith) ∙ ap some (omega arith)

and_self : (a : ℕ) → bit_and a a ≡ a
and_self = by_halves (λ a. bit_and a a ≡ a) refl (λ n pos ih. omega (arith, bit_and_step n n, ih))

-- Only a power of two has no digit in common with its predecessor.
no_common_digit : (v : ℕ) → 0 < v → bit_and v (v - 1) ≡ 0 → (k : ℕ) × (v ≡ 2 ^ k)
no_common_digit =
    by_halves (λ v. 0 < v → bit_and v (v - 1) ≡ 0 → (k : ℕ) × (v ≡ 2 ^ k))
      (λ h. absurd (omega arith)) step
  where
    step :
        (n : ℕ)
        → 0 < n
        → (0 < n / 2 → bit_and (n / 2) (n / 2 - 1) ≡ 0 → (k : ℕ) × (n / 2 ≡ 2 ^ k))
        → 0 < n
        → bit_and n (n - 1) ≡ 0
        → (k : ℕ) × (n ≡ 2 ^ k)
    step n pos ih _ h = elim (dec_lt 0 (n % 2)) [
      | yes odd ↦
          let low : (n - 1) / 2 ≡ n / 2 = omega arith in
          (
            0,
            omega (
              arith,
              pow-zero 2,
              bit_and_step n (n - 1),
              ap (bit_and (n / 2)) low,
              and_self (n / 2),
            ),
          )
      | no even ↦
          let low : (n - 1) / 2 ≡ n / 2 - 1 = omega arith in
          let (k, e) =
            ih (omega arith) (omega (arith, bit_and_step n (n - 1), ap (bit_and (n / 2)) low)) in
          (suc k, omega (arith, e, pow-suc 2 k))
    ]

power_below : (k : ℕ) → bit_and (2 ^ k) (2 ^ k - 1) ≡ 0
power_below k = and_mask k (2 ^ k) ∙ mod_self (2 ^ k)

-- The test passes for 0 and for the powers of two, and for no other 64-bit word.
pub is_power_of2_iff :
    (v : ℕ) → v < 2 ^ 64 → (is_power_of2 v ≡ true) ↔ ((v ≡ 0) ⊎ ((k : ℕ) × (v ≡ 2 ^ k)))
unfolding is_power_of2
is_power_of2_iff v h = (forth, back)
  where
    pred : 0 < v → bit_and v ((v + 2 ^ 64 - 1) % 2 ^ 64) ≡ bit_and v (v - 1)
    pred pos = let e : (v + 2 ^ 64 - 1) % 2 ^ 64 ≡ v - 1 = omega arith in ap (bit_and v) e

    forth : (bit_and v ((v + 2 ^ 64 - 1) % 2 ^ 64) == 0) ≡ true → (v ≡ 0) ⊎ ((k : ℕ) × (v ≡ 2 ^ k))
    forth t = elim (dec_lt 0 v) [
      | yes pos ↦ inr (no_common_digit v pos (sym (pred pos) ∙ (==_iff _ 0).0 t))
      | no empty ↦ inl (omega arith)
    ]

    back : (v ≡ 0) ⊎ ((k : ℕ) × (v ≡ 2 ^ k)) → (bit_and v ((v + 2 ^ 64 - 1) % 2 ^ 64) == 0) ≡ true
    back (inl e) = (==_iff _ 0).1 (rw e refl)
    back (inr (k, e)) = (==_iff _ 0).1 (
        pred (omega (arith, e, one-le-pow k 2))
        ∙ ap (λ (t : ℕ). bit_and t (t - 1)) e
        ∙ power_below k)
