-- ===== src/Random/Injective.antt =====
-- `next64` loses nothing of the state.
use native.Mathlib.Nat.{
  mod-lt, div-add-mod', mod-eq_of_lt, one-le-pow, add_comm, add-mul-mod_self_right,
}
use turf.Prelude.{ℕ, ◌+◌, ◌*◌, ◌/◌, ◌%◌, ◌^◌, ◌<◌, bit_xor, ◌≡◌, sym, ap, ap₂, ◌∙◌, arith}
use turf.Bits.Split.{bit_xor_split}
use turf.Bits.Xor.{zero-xor, xor_comm, xor_assoc, xor-shr, xor-lt, xor_cancel, xor_cancel_right}
use turf.Util.Hash.Laws.{xor_telescope}
use turf.Random.{Random, mixed, step, next64}

-- The terms of two sums that are the same can be paired.
paired : (x x' y y' : ℕ) (h : bit_xor x x' ≡ bit_xor y y') → bit_xor x y ≡ bit_xor x' y'
paired x x' y y' h =
    sym (xor_telescope x x' y)
    ∙ ap₂ bit_xor (h ∙ xor_comm y y') (xor_comm x' y)
    ∙ xor_telescope y' y x'
    ∙ xor_comm y' x'

nothing_left : (x y : ℕ) (h : bit_xor x y ≡ 0) → x ≡ y
nothing_left x y h = sym (xor_cancel x y) ∙ ap (λ (t : ℕ). bit_xor t y) h ∙ zero-xor y

xor-mod : (k a b : ℕ) → bit_xor a b % 2 ^ k ≡ bit_xor (a % 2 ^ k) (b % 2 ^ k)
xor-mod k a b =
    let cut : 0 < 2 ^ k = one-le-pow k 2 (omega arith) in
    let low = bit_xor (a % 2 ^ k) (b % 2 ^ k) in
    ap₂ (λ (x y : ℕ). bit_xor x y % 2 ^ k) (sym (div-add-mod' a (2 ^ k)))
      (sym (div-add-mod' b (2 ^ k)))
    ∙ ap (λ (x : ℕ). x % 2 ^ k)
        (bit_xor_split k (a / 2 ^ k) (b / 2 ^ k) (a % 2 ^ k) (b % 2 ^ k) (mod-lt a cut)
            (mod-lt b cut)
          ∙ add_comm (bit_xor (a / 2 ^ k) (b / 2 ^ k) * 2 ^ k) low)
    ∙ add-mul-mod_self_right low (bit_xor (a / 2 ^ k) (b / 2 ^ k)) (2 ^ k)
    ∙ mod-eq_of_lt (xor-lt k (a % 2 ^ k) (b % 2 ^ k) (mod-lt a cut) (mod-lt b cut))

shift_cut : (a : ℕ) → a * 2 ^ 23 % 2 ^ 64 ≡ a % 2 ^ 41 * 2 ^ 23 + 0
shift_cut a = omega arith

shifted-xor :
    (a b : ℕ) → bit_xor (a * 2 ^ 23 % 2 ^ 64) (b * 2 ^ 23 % 2 ^ 64) ≡ bit_xor a b * 2 ^ 23 % 2 ^ 64
shifted-xor a b =
    ap₂ bit_xor (shift_cut a) (shift_cut b)
    ∙ bit_xor_split 23 (a % 2 ^ 41) (b % 2 ^ 41) 0 0 (omega arith) (omega arith)
    ∙ ap (λ (x : ℕ). x * 2 ^ 23 + 0) (sym (xor-mod 41 a b))
    ∙ sym (shift_cut (bit_xor a b))

left_zero : (d : ℕ) (small : d < 2 ^ 64) (e : d ≡ d * 2 ^ 23 % 2 ^ 64) → d ≡ 0
left_zero d small e = omega (arith, small, e)

mixed_distinct :
    (a b : ℕ) (fits_a : a < 2 ^ 64) (fits_b : b < 2 ^ 64) (h : mixed a ≡ mixed b) → a ≡ b
mixed_distinct a b fits_a fits_b h = nothing_left a b (
    left_zero (bit_xor a b) (xor-lt 64 a b fits_a fits_b)
      (paired a (a * 2 ^ 23 % 2 ^ 64) b (b * 2 ^ 23 % 2 ^ 64) h ∙ shifted-xor a b))

right_distinct : (x y : ℕ) (h : bit_xor x (x / 2 ^ 17) ≡ bit_xor y (y / 2 ^ 17)) → x ≡ y
right_distinct x y h =
    let e : bit_xor x y ≡ bit_xor x y / 2 ^ 17 =
      paired x (x / 2 ^ 17) y (y / 2 ^ 17) h ∙ sym (xor-shr 17 x y) in
    nothing_left x y (omega (arith, e))

last_two : (a b c : ℕ) → bit_xor (bit_xor a b) c ≡ bit_xor (bit_xor a c) b
last_two a b c = xor_assoc a b c ∙ ap (bit_xor a) (xor_comm b c) ∙ sym (xor_assoc a c b)

-- Two states of words after which `next64` leaves the same state are the same.
pub next64_distinct :
    (r t : Random) (fits_r : r.s0 < 2 ^ 64) (fits_t : t.s0 < 2 ^ 64)
    (h : (next64 r).1 ≡ (next64 t).1)
    → r ≡ t
unfolding next64 step
next64_distinct r t fits_r fits_t h =
    let same : r.s1 ≡ t.s1 = ap (λ (u : Random). u.s0) h in
    let v = mixed r.s0 in
    let w = mixed t.s0 in
    let whole = ap (λ (u : Random). u.s1) h in
    let moved : bit_xor (bit_xor (bit_xor w t.s1) (w / 2 ^ 17)) (t.s1 / 2 ^ 26)
        ≡ bit_xor (bit_xor (bit_xor w r.s1) (w / 2 ^ 17)) (r.s1 / 2 ^ 26) =
      ap (λ (k : ℕ). bit_xor (bit_xor (bit_xor w k) (w / 2 ^ 17)) (k / 2 ^ 26)) (sym same) in
    let inner : bit_xor (bit_xor v r.s1) (v / 2 ^ 17) ≡ bit_xor (bit_xor w r.s1) (w / 2 ^ 17) =
      xor_cancel_right _ _ (r.s1 / 2 ^ 26) (whole ∙ moved) in
    let core : bit_xor v (v / 2 ^ 17) ≡ bit_xor w (w / 2 ^ 17) =
      xor_cancel_right _ _ r.s1
        (sym (last_two v r.s1 (v / 2 ^ 17)) ∙ inner ∙ last_two w r.s1 (w / 2 ^ 17)) in
    ap₂ (λ (x y : ℕ). record { s0 = x; s1 = y })
      (mixed_distinct r.s0 t.s0 fits_r fits_t (right_distinct v w core)) same
