-- ===== src/Affinity/FreeBsd/Masks.antt =====
-- The masks of `getTopology` and their trailing zeros.
use native.Mathlib.Nat.{pow-suc, one-le-pow, suc-mul, mul-div_cancel, div-add-mod', mod-lt}
use turf.Prelude.{
  ℕ, zero, suc, ◌+◌, ◌-◌, ◌*◌, ◌/◌, ◌%◌, ◌^◌, ◌≤◌, ◌<◌, ◌==◌, bit_and, bit_xor, false, ◌≡◌, refl,
  sym, ap, ap₂, ◌∙◌, arith,
}
use turf.Bits.Digits.{bit_xor_step}
use turf.Bits.Split.{bit_xor_split}
use turf.Bits.Mask.{and_mask, and_high}
use turf.Bits.Xor.{xor-zero, zero-xor, xor_self}
use turf.Bits.Test.{two_pow_add}
use turf.Affinity.FreeBsd.{shift_loop, ctz, low_mask}

-- The digits from `a` up to `b`.
abbrev pub field : ℕ → ℕ → ℕ
field a b = (2 ^ (b - a) - 1) * 2 ^ a

one_less : (q a : ℕ) (pos : 1 ≤ q) → q * a ≡ (q - 1) * a + a
one_less q a pos =
    let e : q ≡ suc (q - 1) = omega arith in ap (λ (k : ℕ). k * a) e ∙ suc-mul (q - 1) a

pub positive : (k : ℕ) → 1 ≤ 2 ^ k
positive k = one-le-pow k 2 (omega arith)

pub low_split : (a b : ℕ) (le : a ≤ b) → 2 ^ b - 1 ≡ (2 ^ (b - a) - 1) * 2 ^ a + (2 ^ a - 1)
low_split a b le =
    let e : 2 ^ b ≡ 2 ^ (b - a) * 2 ^ a =
      let s : b ≡ b - a + a = omega arith in ap (λ (k : ℕ). 2 ^ k) s ∙ two_pow_add (b - a) a in
    omega (arith, e, one_less (2 ^ (b - a)) (2 ^ a) (positive (b - a)), positive a)

pub low-xor-low : (a b : ℕ) (le : a ≤ b) → bit_xor (low_mask b) (low_mask a) ≡ field a b
low-xor-low a b le =
    let q = 2 ^ (b - a) - 1 in
    let r = 2 ^ a - 1 in
    let small : r < 2 ^ a = omega (arith, positive a) in
    ap₂ bit_xor (low_split a b le) (omega arith)
    ∙ bit_xor_split a q 0 r r small small
    ∙ ap₂ (λ (x y : ℕ). x * 2 ^ a + y) (xor-zero q) (xor_self r)
    ∙ omega arith

-- The field of a word that the mask and the shift cut out.
pub field_cut :
    (id a b : ℕ) (le : a ≤ b) → bit_and id (field a b) / 2 ^ a ≡ id / 2 ^ a % 2 ^ (b - a)
field_cut id a b le =
    let cut = positive a in
    ap (λ (k : ℕ). bit_and k (field a b) / 2 ^ a) (sym (div-add-mod' id (2 ^ a)))
    ∙ ap (λ (k : ℕ). k / 2 ^ a)
        (and_high a (id / 2 ^ a) (2 ^ (b - a) - 1) (id % 2 ^ a) (mod-lt id cut))
    ∙ mul-div_cancel (bit_and (id / 2 ^ a) (2 ^ (b - a) - 1)) cut
    ∙ and_mask (b - a) (id / 2 ^ a)

ones_shifts : (n a c : ℕ) (le : a ≤ n) → shift_loop n c (2 ^ a - 1) ≡ c + a
unfolding shift_loop
ones_shifts zero a c le = omega (arith, le)
ones_shifts (suc n) zero c le = omega arith
ones_shifts (suc n) (suc a) c le =
    let half : (2 ^ suc a - 1) / 2 ≡ 2 ^ a - 1 = omega (arith, pow-suc 2 a, positive a) in
    let more : (2 ^ suc a - 1 == 0) ≡ false = ground (arith, pow-suc 2 a, positive a) in
    rw (more, half, ones_shifts n a (c + 1) (omega (arith, le))) omega arith

ctz_shift : (v : ℕ) (some_bit : 1 ≤ v) → ctz v ≡ shift_loop 32 0 (bit_xor v (v - 1) / 2)
unfolding ctz
ctz_shift v some_bit = let f : (v == 0) ≡ false = ground (arith, some_bit) in rw f refl

-- `v ^ (v - 1)` for an odd number of `2 ^ a`.
lowest_set : (a p : ℕ) → bit_xor ((p * 2 + 1) * 2 ^ a) ((p * 2 + 1) * 2 ^ a - 1) ≡ 2 ^ suc a - 1
lowest_set a p =
    let less : (p * 2 + 1) * 2 ^ a - 1 ≡ p * 2 * 2 ^ a + (2 ^ a - 1) =
      omega (arith, one_less (p * 2 + 1) (2 ^ a) (omega arith), positive a) in
    let odd : bit_xor (p * 2 + 1) (p * 2) ≡ 1 =
      let same : (p * 2 + 1) / 2 ≡ p = omega arith in
      let even : p * 2 / 2 ≡ p = omega arith in
      bit_xor_step (p * 2 + 1) (p * 2)
      ∙ ap₂ (λ (x y : ℕ). bit_xor x y * 2 + ((p * 2 + 1) % 2 + p * 2 % 2) % 2) same even
      ∙ omega (arith, xor_self p) in
    ap₂ bit_xor (omega arith) less
    ∙ bit_xor_split a (p * 2 + 1) (p * 2) 0 (2 ^ a - 1) (positive a) (omega (arith, positive a))
    ∙ ap₂ (λ (x y : ℕ). x * 2 ^ a + y) odd (zero-xor (2 ^ a - 1))
    ∙ omega (arith, pow-suc 2 a, positive a)

pub ctz-field : (a b : ℕ) (lt : a < b) (word : b ≤ 32) → ctz (field a b) ≡ a
ctz-field a b lt word =
    let p = 2 ^ (b - a - 1) - 1 in
    let odd : field a b ≡ (p * 2 + 1) * 2 ^ a =
      let e : b - a ≡ suc (b - a - 1) = omega (arith, lt) in
      let twice : 2 ^ (b - a) ≡ 2 ^ (b - a - 1) * 2 =
        ap (λ (k : ℕ). 2 ^ k) e ∙ pow-suc 2 (b - a - 1) in
      ap (λ (k : ℕ). k * 2 ^ a) (omega (arith, twice, positive (b - a - 1))) in
    let some_bit : 1 ≤ (p * 2 + 1) * 2 ^ a =
      omega (arith, one_less (p * 2 + 1) (2 ^ a) (omega arith), positive a) in
    ap ctz odd
    ∙ ctz_shift ((p * 2 + 1) * 2 ^ a) some_bit
    ∙ ap (λ (v : ℕ). shift_loop 32 0 (v / 2)) (lowest_set a p)
    ∙ ap (shift_loop 32 0) (omega (arith, pow-suc 2 a, positive a))
    ∙ ones_shifts 32 a 0 (omega (arith, lt, word))
    ∙ omega arith
