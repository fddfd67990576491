-- ===== src/Util/Word/Align.antt =====
-- turf/Util.h, `align`: rounding up to a multiple of a power of two.
use native.Mathlib.Nat.{
  one-le-pow, mul-sub, mod-eq_of_lt, mod-lt, div-lt_iff_lt-mul, mul-mod_left, div-add-mod,
}
use turf.Prelude.{ℕ, ◌+◌, ◌-◌, ◌*◌, ◌/◌, ◌%◌, ◌^◌, ◌≤◌, ◌<◌, bit_and, ◌≡◌, ◌∙◌, ap, ap₂, arith}
use turf.Bits.Test.{two_pow_add}
use turf.Bits.Mask.{and_mask, and_high}
use turf.Util.Word.{align}

two_pow_sub : (k : ℕ) → k ≤ 64 → 2 ^ 64 ≡ 2 ^ (64 - k) * 2 ^ k
two_pow_sub k h =
    let e : 64 ≡ 64 - k + k = omega arith in ap (λ (t : ℕ). 2 ^ t) e ∙ two_pow_add (64 - k) k

-- The complement of `k` ones, on a word.
clear_low : (k x : ℕ) → k ≤ 64 → x < 2 ^ 64 → bit_and x (2 ^ 64 - 2 ^ k) ≡ x / 2 ^ k * 2 ^ k
clear_low k x h small =
    let room : 2 ^ 64 - 2 ^ k ≡ (2 ^ (64 - k) - 1) * 2 ^ k =
      omega (arith, two_pow_sub k h, mul-sub (2 ^ k) (2 ^ (64 - k)) 1) in
    let cut : x ≡ x / 2 ^ k * 2 ^ k + x % 2 ^ k = omega arith in
    ap₂ bit_and cut room
    ∙ and_high k (x / 2 ^ k) (2 ^ (64 - k) - 1) (x % 2 ^ k)
        (mod-lt x (one-le-pow k 2 (omega arith)))
    ∙ ap (λ (t : ℕ). t * 2 ^ k)
        (and_mask (64 - k) (x / 2 ^ k)
          ∙ mod-eq_of_lt (
              (div-lt_iff_lt-mul (one-le-pow k 2 (omega arith))).1
                (omega (arith, two_pow_sub k h))))

align_floor :
    (v k : ℕ) → k < 64 → v + 2 ^ k ≤ 2 ^ 64 → align v (2 ^ k) ≡ (v + 2 ^ k - 1) / 2 ^ k * 2 ^ k
unfolding align
align_floor v k h fits =
    let pos : 0 < 2 ^ k = one-le-pow k 2 (omega arith) in
    let sum : (v + 2 ^ k + 2 ^ 64 - 1) % 2 ^ 64 ≡ v + 2 ^ k - 1 = omega arith in
    let mask : 2 ^ 64 - 1 - (2 ^ k + 2 ^ 64 - 1) % 2 ^ 64 ≡ 2 ^ 64 - 2 ^ k = omega arith in
    ap₂ bit_and sum mask ∙ clear_low k (v + 2 ^ k - 1) (omega arith) (omega arith)

-- With an alignment `2 ^ k` whose sum with `v` is at most `2 ^ 64`, the result is the least
-- multiple of it that is not below `v`.
pub align_least :
    (v k : ℕ)
    → k < 64
    → v + 2 ^ k ≤ 2 ^ 64
    → (align v (2 ^ k) % 2 ^ k ≡ 0) × (v ≤ align v (2 ^ k)) × (align v (2 ^ k) < v + 2 ^ k)
align_least v k h fits =
    let pos : 0 < 2 ^ k = one-le-pow k 2 (omega arith) in
    let m : ℕ = v + 2 ^ k - 1 in
    rw (align_floor v k h fits) (
      mul-mod_left (m / 2 ^ k) (2 ^ k),
      omega (arith, mod-lt m pos, div-add-mod m (2 ^ k)),
      omega (arith, div-add-mod m (2 ^ k)),
    )
