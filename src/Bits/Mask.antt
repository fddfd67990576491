-- ===== src/Bits/Mask.antt =====
-- `&` with a run of ones.
use native.Mathlib.Nat.{add-zero, pow-zero, pow-suc, one-le-pow}
use turf.Prelude.{
  ℕ, zero, suc, ◌+◌, ◌-◌, ◌*◌, ◌/◌, ◌%◌, ◌^◌, ◌<◌, bit_or, bit_and, ◌≡◌, refl, sym, ◌∙◌, ap, arith,
}
use turf.Bits.Split.{bit_and_split}
use turf.Bits.Digits.{by_halves, bit_and_step, bit_or_step}

pub and-zero : (a : ℕ) → bit_and a 0 ≡ 0
and-zero = by_halves (λ a. bit_and a 0 ≡ 0) refl (λ n pos ih. omega (arith, bit_and_step n 0, ih))

pub zero-and : (b : ℕ) → bit_and 0 b ≡ 0
zero-and = by_halves (λ b. bit_and 0 b ≡ 0) refl (λ n pos ih. omega (arith, bit_and_step 0 n, ih))

pub or-zero : (a : ℕ) → bit_or a 0 ≡ a
or-zero = by_halves (λ a. bit_or a 0 ≡ a) refl (λ n pos ih. omega (arith, bit_or_step n 0, ih))

pub zero-or : (b : ℕ) → bit_or 0 b ≡ b
zero-or = by_halves (λ b. bit_or 0 b ≡ b) refl (λ n pos ih. omega (arith, bit_or_step 0 n, ih))

pub and_ones : (k r : ℕ) → r < 2 ^ k → bit_and r (2 ^ k - 1) ≡ r
and_ones zero r h = let e : r ≡ 0 = omega (arith, pow-zero 2) in rw e refl
and_ones (suc k) r h = ground (
  arith,
  bit_and_step r (2 ^ suc k - 1),
  pow-suc 2 k,
  one-le-pow k 2,
  and_ones k (r / 2) (omega (arith, pow-suc 2 k)),
)

-- A mask of `k` ones keeps the remainder by `2 ^ k`.
pub and_mask : (k a : ℕ) → bit_and a (2 ^ k - 1) ≡ a % 2 ^ k
and_mask k a = ground (
  arith,
  one-le-pow k 2,
  bit_and_split k (a / 2 ^ k) 0 (a % 2 ^ k) (2 ^ k - 1),
  and-zero (a / 2 ^ k),
  and_ones k (a % 2 ^ k),
)

-- A mask that is clear below digit `k`, on a number that is cut at `k`.
pub and_high : (k q p r : ℕ) → r < 2 ^ k → bit_and (q * 2 ^ k + r) (p * 2 ^ k) ≡ bit_and q p * 2 ^ k
and_high k q p r h =
    ap (λ (t : ℕ). bit_and (q * 2 ^ k + r) t) (sym (add-zero (p * 2 ^ k)))
    ∙ omega (arith, bit_and_split k q p r 0 h (one-le-pow k 2 (omega arith)), and-zero r)
