-- ===== src/BitField/Cut.antt =====
-- A word cut into what stands above a member, the member, and what stands below it.
use native.Mathlib.Nat.{
  mul-add-div_right, div-eq_of_lt, mul-add-mod_self_right, mod-eq_of_lt, mul-le-mul_right, suc-mul,
  add-mul,
}
use turf.Prelude.{ℕ, zero, suc, ◌+◌, ◌-◌, ◌*◌, ◌/◌, ◌%◌, ◌^◌, ◌≤◌, ◌<◌, ◌≡◌, ap, ◌∙◌, arith}
use turf.Bits.Test.{two_pow_add}

pred : (n : ℕ) → suc n - 1 ≡ n
pred n = omega arith

-- The complement of a mask.
pub complement :
    (c b o : ℕ) → 0 < c → 0 < b → 0 < o → c * b * o - 1 - (b - 1) * o ≡ (c - 1) * b * o + (o - 1)
complement zero b o hc hb ho = absurd (omega arith)
complement (suc c) zero o hc hb ho = absurd (omega arith)
complement (suc c) (suc b) zero hc hb ho = absurd (omega arith)
complement (suc c) (suc b) (suc o) hc hb ho =
    rw (pred c, pred b, pred o)
      (omega (
        arith,
        ap (λ (t : ℕ). t * suc o) (suc-mul c (suc b)),
        add-mul (c * suc b) (suc b) (suc o),
        suc-mul b (suc o),
      ))

-- The whole is below the product of the bounds of its parts.
pub join-lt : (c b o h m l : ℕ) → h < c → m < b → l < o → (h * b + m) * o + l < c * b * o
join-lt c b o h m l hc hb ho =
    let high : suc h * b ≤ c * b = mul-le-mul_right b hc in
    let mid : suc (h * b + m) * o ≤ c * b * o =
      mul-le-mul_right o (omega (arith, suc-mul h b, high)) in
    omega (arith, suc-mul (h * b + m) o, mid)

pub two_pow_cut : (w o b : ℕ) → o + b ≤ w → 2 ^ w ≡ 2 ^ (w - o - b) * 2 ^ b * 2 ^ o
two_pow_cut w o b le =
    let e : w ≡ w - o - b + b + o = omega arith in
    ap (λ (t : ℕ). 2 ^ t) e
    ∙ two_pow_add (w - o - b + b) o
    ∙ ap (λ (t : ℕ). t * 2 ^ o) (two_pow_add (w - o - b) b)

pub join-shr : (q o l : ℕ) → l < o → (q * o + l) / o ≡ q
join-shr q o l lt = omega (arith, mul-add-div_right {m = o} (omega arith) q l, div-eq_of_lt lt)

pub join-low : (q o l : ℕ) → l < o → (q * o + l) % o ≡ l
join-low q o l lt = mul-add-mod_self_right q o l ∙ mod-eq_of_lt lt
