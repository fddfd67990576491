-- ===== src/Bits/Test.antt =====
-- Single digits of a number: those of an operation, and a number all of whose digits are set.
use native.Mathlib.Nat.{
  pow-zero, pow-suc, div-one, div-div-eq-div-mul, mod-mod_of_dvd, dvd_of_mod-eq-zero, mul-mod_left,
}
use turf.Prelude.{
  ℕ, zero, suc, ◌+◌, ◌-◌, ◌*◌, ◌/◌, ◌%◌, ◌^◌, ◌≤◌, ◌<◌, max, bit_and, bit_or, ◌≡◌, sym, ◌∙◌, ap,
  arith,
}
use turf.Bits.Digits.{bit_or_step, bit_and_step}
use turf.Bits.Mask.{zero-and}
use turf.Bits.Xor.{shr_suc}

abbrev pub digit : ℕ → ℕ → ℕ
digit j a = a / 2 ^ j % 2

pub two_pow_add : (j k : ℕ) → 2 ^ (j + k) ≡ 2 ^ j * 2 ^ k
two_pow_add zero k = grind (arith, pow-zero)
two_pow_add (suc j) k =
    let e : suc j + k ≡ suc (j + k) = omega arith in
    rw e
      (omega (arith, pow-suc 2 (j + k), ap (λ (t : ℕ). t * 2 ^ k) (pow-suc 2 j), two_pow_add j k))

-- A remainder by a larger power of two does not change one by a smaller.
pub mod-mod_pow : (j k x : ℕ) → j ≤ k → x % 2 ^ k % 2 ^ j ≡ x % 2 ^ j
mod-mod_pow j k x h =
    let e : k ≡ k - j + j = omega arith in
    mod-mod_of_dvd (2 ^ j) x (
      dvd_of_mod-eq-zero (2 ^ j) (
        ap (λ (t : ℕ). 2 ^ t % 2 ^ j) e
        ∙ ap (λ (t : ℕ). t % 2 ^ j) (two_pow_add (k - j) j)
        ∙ mul-mod_left (2 ^ (k - j)) (2 ^ j)))

pub shr_shr : (a j k : ℕ) → a / 2 ^ j / 2 ^ k ≡ a / 2 ^ (j + k)
shr_shr a j k = div-div-eq-div-mul a (2 ^ j) (2 ^ k) ∙ ap (λ (t : ℕ). a / t) (sym (two_pow_add j k))

pub digit-bit_or : (j a b : ℕ) → digit j (bit_or a b) ≡ max (digit j a) (digit j b)
digit-bit_or zero a b = simp (pow-zero, div-one) (omega (arith, bit_or_step a b))
digit-bit_or (suc j) a b =
    let half : bit_or a b / 2 ≡ bit_or (a / 2) (b / 2) = omega (arith, bit_or_step a b) in
    rw (shr_suc (bit_or a b) j, shr_suc a j, shr_suc b j, half) (digit-bit_or j (a / 2) (b / 2))

pub or-lt : (k a b : ℕ) → a < 2 ^ k → b < 2 ^ k → bit_or a b < 2 ^ k
or-lt zero a b ha hb = ground arith
or-lt (suc k) a b ha hb = omega (
  arith,
  bit_or_step a b,
  pow-suc 2 k,
  or-lt k (a / 2) (b / 2) (omega (arith, pow-suc 2 k)) (omega (arith, pow-suc 2 k)),
)

pub and-lt : (k a b : ℕ) → a < 2 ^ k → bit_and a b < 2 ^ k
and-lt zero a b ha = let e : a ≡ 0 = omega (arith, pow-zero 2) in rw (e, zero-and b) (omega arith)
and-lt (suc k) a b ha =
    omega
      (arith, bit_and_step a b, pow-suc 2 k, and-lt k (a / 2) (b / 2) (omega (arith, pow-suc 2 k)))

-- The digits from `n - t` up to `n` are set.
abbrev pub TopSet : ℕ → ℕ → ℕ → Type 0
TopSet n t a = (j : ℕ) → j < n → n ≤ j + t → digit j a ≡ 1

pub all_set : (n a : ℕ) → a < 2 ^ n → ((j : ℕ) → j < n → digit j a ≡ 1) → a + 1 ≡ 2 ^ n
all_set zero a h set = omega (arith, pow-zero 2)
all_set (suc n) a h set = omega (
  arith,
  pow-suc 2 n,
  simp (pow-zero, div-one) at (set 0 (omega arith)),
  all_set n (a / 2) (omega (arith, pow-suc 2 n))
      (λ j hj. rw (← shr_suc) (set (suc j) (omega arith))),
)
