-- ===== src/Util/Word/PowerOf2.antt =====
-- turf/Util.h, `roundUpPowerOf2` and `isPowerOf2`: each `v |= v >> k` doubles the run of set
-- digits below the highest one.
use native.Mathlib.Nat.{pow-suc, pow-zero, one-le-pow, pow-le-pow_right, mod-eq_of_lt, mod_self}
use turf.Prelude.{
  ℕ, zero, suc, ◌+◌, ◌-◌, ◌*◌, ◌/◌, ◌%◌, ◌^◌, ◌≤◌, ◌<◌, max, ◌≡◌, refl, ◌∙◌, ap, arith, dec_lt, ◌⊎◌,
}
use turf.Bits.Digits.{by_halves}
use turf.Bits.Test.{shr_shr, digit-bit_or, or-lt, TopSet, all_set}
use turf.Bits.Xor.{shr_suc}
use turf.Util.Word.{smear, round_up_power_of2_32, round_up_power_of2_64}

digit_le_one : (a b : ℕ) → a ≡ 1 → b ≤ 1 → max a b ≡ 1
digit_le_one a b h k = omega arith

-- One step doubles the run of set digits.
smear-TopSet : (n t a : ℕ) → TopSet n t a → TopSet n (t + t) (smear t a)
unfolding smear
smear-TopSet n t a top j hj hn =
    rw (digit-bit_or j a (a / 2 ^ t), shr_shr a t j)
      (elim (dec_lt (j + t) n) [
        | yes low ↦ omega (arith, top (t + j) (omega arith) (omega arith))
        | no high ↦ omega (arith, top j hj (omega arith))
      ])

smear-lt : (k n a : ℕ) → a < 2 ^ n → smear k a < 2 ^ n
unfolding smear
smear-lt k n a h = or-lt n a (a / 2 ^ k) h (grind (arith, one-le-pow))

-- The number of digits of `a`: the highest one is set, and there is no more room than that.
record Length (a : ℕ) : Type 0 where
  size : ℕ
  below : a < 2 ^ size
  top : TopSet size 1 a
  tight : 0 < a → 2 ^ size ≤ 2 * a
  empty : a ≡ 0 → size ≡ 0

pow_mono : (j k : ℕ) → j ≤ k → 2 ^ j ≤ 2 ^ k
pow_mono j k h = pow-le-pow_right {n = 2} (omega arith) h

double-TopSet : (n a : ℕ) → 0 < a → a / 2 < 2 ^ n → TopSet n 1 (a / 2) → TopSet (suc n) 1 a
double-TopSet zero a pos h top zero hj hn = omega (arith, pow-zero 2)
double-TopSet (suc n) a pos h top zero hj hn = absurd (omega arith)
double-TopSet n a pos h top (suc j) hj hn = rw shr_suc (top j (omega arith) (omega arith))

double-tight :
    (n a : ℕ) → 0 < a → (0 < a / 2 → 2 ^ n ≤ 2 * (a / 2)) → (a / 2 ≡ 0 → n ≡ 0) → 2 ^ suc n ≤ 2 * a
double-tight n a pos tight empty = elim (dec_lt 0 (a / 2)) [
  | yes more ↦ omega (arith, pow-suc 2 n, tight more)
  | no one ↦ rw (empty (omega arith)) (omega arith)
]

digits_of : (a : ℕ) → Length a
digits_of =
    by_halves Length
      (record {
        size = 0;
        below = omega arith;
        top = λ j h k. absurd (omega arith);
        tight = λ h. absurd (omega arith);
        empty = λ e. refl;
      })
      λ n pos half. record {
        size = suc half.size;
        below = omega (arith, pow-suc 2 half.size, half.below);
        top = double-TopSet half.size n pos half.below half.top;
        tight = λ h. double-tight half.size n pos half.tight half.empty;
        empty = λ e. absurd (omega arith);
      }

short_of_lt : (k : ℕ) (a : ℕ) (l : Length a) → a < 2 ^ k → l.size ≤ k
short_of_lt k a l h = elim (dec_lt k l.size) [
  | yes more ↦ elim (dec_lt 0 a) [
    | yes pos ↦ absurd (omega (arith, pow-suc 2 k, l.tight pos, pow_mono (suc k) l.size more))
    | no none ↦ absurd (omega (arith, l.empty (omega arith)))
  ]
  | no enough ↦ omega arith
]

long_of_ge : (k : ℕ) (a : ℕ) (l : Length a) → 2 ^ k ≤ a → k < l.size
long_of_ge k a l h = elim (dec_lt k l.size) [
  | yes more ↦ more
  | no small ↦ absurd (omega (arith, l.below, pow_mono l.size k (omega arith)))
]

-- After 1, 2, 4, 8 and 16 every digit below the highest one is set.
smear32_lem :
    (n a : ℕ)
    → n ≤ 32
    → a < 2 ^ n
    → TopSet n 1 a
    → smear 16 (smear 8 (smear 4 (smear 2 (smear 1 a)))) + 1 ≡ 2 ^ n
smear32_lem n a fits below top =
    all_set n _ (bounded 16 _ (bounded 8 _ (bounded 4 _ (bounded 2 _ (bounded 1 a below)))))
      λ j hj. all j hj (omega arith)
  where
    bounded : (k b : ℕ) → b < 2 ^ n → smear k b < 2 ^ n
    bounded k b = smear-lt k n b

    all : TopSet n 32 (smear 16 (smear 8 (smear 4 (smear 2 (smear 1 a)))))
    all =
        smear-TopSet n 16 _
          (smear-TopSet n 8 _ (smear-TopSet n 4 _ (smear-TopSet n 2 _ (smear-TopSet n 1 a top))))

smear64_lem :
    (n a : ℕ)
    → n ≤ 64
    → a < 2 ^ n
    → TopSet n 1 a
    → smear 32 (smear 16 (smear 8 (smear 4 (smear 2 (smear 1 a))))) + 1 ≡ 2 ^ n
smear64_lem n a fits below top =
    all_set n _
      (bounded 32 _ (bounded 16 _ (bounded 8 _ (bounded 4 _ (bounded 2 _ (bounded 1 a below))))))
      λ j hj. all j hj (omega arith)
  where
    bounded : (k b : ℕ) → b < 2 ^ n → smear k b < 2 ^ n
    bounded k b = smear-lt k n b

    all : TopSet n 64 (smear 32 (smear 16 (smear 8 (smear 4 (smear 2 (smear 1 a))))))
    all = smear-TopSet n 32 _ (
        smear-TopSet n 16 _
          (smear-TopSet n 8 _ (smear-TopSet n 4 _ (smear-TopSet n 2 _ (smear-TopSet n 1 a top)))))

-- What a word `r` that is computed from the length of `v - 1` says of `v`.
least_power :
    (w v u r : ℕ) (l : Length u)
    → r ≡ 2 ^ l.size % 2 ^ suc w
    → u + 1 ≡ v
    → v ≤ 2 ^ w
    → (k : ℕ) × (r ≡ 2 ^ k) × (v ≤ 2 ^ k) × (2 ^ k < 2 * v)
least_power w v u r l e pred small = (l.size, fits, omega (arith, l.below), near)
  where
    near : 2 ^ l.size < 2 * v
    near = elim (dec_lt 0 u) [
      | yes more ↦ omega (arith, l.tight more)
      | no one ↦ rw (l.empty (omega arith)) (omega arith)
    ]

    fits : r ≡ 2 ^ l.size
    fits =
        e
        ∙ mod-eq_of_lt (
            omega (
              arith,
              pow-suc 2 w,
              one-le-pow w 2,
              pow_mono l.size w (short_of_lt w u l (omega arith)),
            ))

wraps_to_zero :
    (w u r : ℕ) (l : Length u) → r ≡ 2 ^ l.size % 2 ^ suc w → 2 ^ w ≤ u → u < 2 ^ suc w → r ≡ 0
wraps_to_zero w u r l e lo hi =
    let full : l.size ≡ suc w = omega (arith, short_of_lt (suc w) u l hi, long_of_ge w u l lo) in
    e ∙ ap (λ (t : ℕ). 2 ^ t % 2 ^ suc w) full ∙ mod_self (2 ^ suc w)

round32_size :
    (v : ℕ) (l : Length ((v + 2 ^ 32 - 1) % 2 ^ 32)) → round_up_power_of2_32 v ≡ 2 ^ l.size % 2 ^ 32
unfolding round_up_power_of2_32
round32_size v l =
    ap (λ (t : ℕ). t % 2 ^ 32)
      (smear32_lem l.size _ (short_of_lt 32 _ l (omega arith)) l.below l.top)

round64_size :
    (v : ℕ) (l : Length ((v + 2 ^ 64 - 1) % 2 ^ 64)) → round_up_power_of2_64 v ≡ 2 ^ l.size % 2 ^ 64
unfolding round_up_power_of2_64
round64_size v l =
    ap (λ (t : ℕ). t % 2 ^ 64)
      (smear64_lem l.size _ (short_of_lt 64 _ l (omega arith)) l.below l.top)

-- For a positive `v` up to `2 ^ 31` the 32-bit result is the least power of two that is not below
-- `v`.
pub round_up_power_of2_32_least :
    (v : ℕ)
    → 0 < v
    → v ≤ 2 ^ 31
    → (k : ℕ) × (round_up_power_of2_32 v ≡ 2 ^ k) × (v ≤ 2 ^ k) × (2 ^ k < 2 * v)
round_up_power_of2_32_least v pos le =
    least_power 31 v _ _ (digits_of _) (round32_size v (digits_of _)) (omega arith) le

-- For 0 and for a 32-bit `v` above `2 ^ 31` the result is 0.
pub round_up_power_of2_32_wraps :
    (v : ℕ) → v < 2 ^ 32 → (v ≡ 0) ⊎ (2 ^ 31 < v) → round_up_power_of2_32 v ≡ 0
round_up_power_of2_32_wraps v small h =
    wraps_to_zero 31 _ _ (digits_of _) (round32_size v (digits_of _)) (omega arith) (omega arith)

-- For a positive `v` up to `2 ^ 63` the 64-bit result is the least power of two that is not below
-- `v`.
pub round_up_power_of2_64_least :
    (v : ℕ)
    → 0 < v
    → v ≤ 2 ^ 63
    → (k : ℕ) × (round_up_power_of2_64 v ≡ 2 ^ k) × (v ≤ 2 ^ k) × (2 ^ k < 2 * v)
round_up_power_of2_64_least v pos le =
    least_power 63 v _ _ (digits_of _) (round64_size v (digits_of _)) (omega arith) le

-- For 0 and for a 64-bit `v` above `2 ^ 63` the result is 0.
pub round_up_power_of2_64_wraps :
    (v : ℕ) → v < 2 ^ 64 → (v ≡ 0) ⊎ (2 ^ 63 < v) → round_up_power_of2_64 v ≡ 0
round_up_power_of2_64_wraps v small h =
    wraps_to_zero 63 _ _ (digits_of _) (round64_size v (digits_of _)) (omega arith) (omega arith)
