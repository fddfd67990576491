-- ===== src/Bits/Split.antt =====
-- An operation on binary digits works on the digits from `k` up and on those below by themselves.
use native.Mathlib.Nat.{pow-suc}
use turf.Prelude.{
  ℕ, zero, suc, ◌+◌, ◌*◌, ◌/◌, ◌%◌, ◌^◌, ◌<◌, min, max, bit_and, bit_or, bit_xor, ◌≡◌, refl, arith,
}
use turf.Bits.Digits.{bit_and_step, bit_or_step, bit_xor_step}

pub shift_suc : (high k : ℕ) → high * 2 ^ suc k ≡ 2 * (high * 2 ^ k)
shift_suc high k = rw (pow-suc 2 k) (omega arith)

module _ (op f : ℕ → ℕ → ℕ) (step : (a b : ℕ) → op a b ≡ op (a / 2) (b / 2) * 2 + f (a % 2) (b % 2))
    (none_set : op 0 0 ≡ 0) where
  split :
      (k q p r s : ℕ)
      → r < 2 ^ k
      → s < 2 ^ k
      → op (q * 2 ^ k + r) (p * 2 ^ k + s) ≡ op q p * 2 ^ k + op r s
  split zero q p r s hr hs = ground (arith, none_set)
  split (suc k) q p r s hr hs = ground (
    arith,
    step (q * 2 ^ suc k + r) (p * 2 ^ suc k + s),
    step r s,
    shift_suc q k,
    shift_suc p k,
    shift_suc (op q p) k,
    pow-suc 2 k,
    split k q p (r / 2) (s / 2) (omega (arith, pow-suc 2 k)) (omega (arith, pow-suc 2 k)),
  )

-- Each operation on two numbers that are cut at digit `k` into a high and a low part.
pub bit_and_split :
    (k q p r s : ℕ)
    → r < 2 ^ k
    → s < 2 ^ k
    → bit_and (q * 2 ^ k + r) (p * 2 ^ k + s) ≡ bit_and q p * 2 ^ k + bit_and r s
bit_and_split = split bit_and min bit_and_step refl

pub bit_or_split :
    (k q p r s : ℕ)
    → r < 2 ^ k
    → s < 2 ^ k
    → bit_or (q * 2 ^ k + r) (p * 2 ^ k + s) ≡ bit_or q p * 2 ^ k + bit_or r s
bit_or_split = split bit_or max bit_or_step refl

pub bit_xor_split :
    (k q p r s : ℕ)
    → r < 2 ^ k
    → s < 2 ^ k
    → bit_xor (q * 2 ^ k + r) (p * 2 ^ k + s) ≡ bit_xor q p * 2 ^ k + bit_xor r s
bit_xor_split = split bit_xor (λ x y. (x + y) % 2) bit_xor_step refl
