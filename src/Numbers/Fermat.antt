-- ===== src/Numbers/Fermat.antt =====
-- Fermat's theorem, and its consequence for a prime that leaves 3 by 4: it divides a sum of two
-- squares only if it divides both.
use native.Mathlib.Nat.{
  pow-suc, pow-zero, mod-eq_of_lt, mul-add, mul_comm, mul_assoc, mul-mod_right,
  mul-add-mod_self_right, zero-mod, mul-one, mod-lt, mul-mul-mul_comm, suc-mul, mul-suc,
  add-mul-mod_self_left, add-mod, mod-eq-sub-mod, mod-mod,
}
use turf.Prelude.{
  ℕ, zero, suc, ◌+◌, ◌-◌, ◌*◌, ◌%◌, ◌^◌, ◌≤◌, ◌<◌, ◌≡◌, ◌≢◌, refl, sym, ap, ap₂, ◌∙◌, arith, dec_lt,
}
use turf.Numbers.Congruence.{Congruent, add-Congruent, mul-Congruent, pow-Congruent}
use turf.Numbers.Binomial.{choose, choose_all, absorb, terms, one_add_pow}
use turf.Numbers.Prime.{IsPrime, divides_factor}

choose_middle : (p k : ℕ) → IsPrime p → 0 < k → k < p → choose p k % p ≡ 0
choose_middle zero k prime pos less = absurd (omega arith)
choose_middle (suc n) zero prime pos less = absurd (omega arith)
choose_middle (suc n) (suc j) prime pos less =
    divides_factor prime (suc (suc j)) (suc j) (choose (suc n) (suc j)) (omega arith) pos less
      (ap (λ (t : ℕ). t % suc n) (absorb n j) ∙ mul-mod_right (suc n) (choose n j))

terms_low : (p a k : ℕ) → IsPrime p → k < p → Congruent p (terms p a (suc k)) 1
unfolding terms choose
terms_low p a zero prime less = ap (λ (t : ℕ). t % p) (omega (arith, pow-zero a))
terms_low p a (suc k) prime less =
    let vanishes : Congruent p (choose p (suc k) * a ^ suc k) 0 =
      mul-Congruent p (choose p (suc k)) 0 (a ^ suc k) (a ^ suc k)
        (choose_middle p (suc k) prime (omega arith) less ∙ sym (zero-mod p)) refl
      ∙ ap (λ (t : ℕ). t % p) (omega arith) in
    add-Congruent p (terms p a (suc k)) 1 (choose p (suc k) * a ^ suc k) 0
      (terms_low p a k prime (omega arith)) vanishes

one_add_pow_prime : (p a : ℕ) → IsPrime p → Congruent p ((1 + a) ^ p) (1 + a ^ p)
unfolding terms
one_add_pow_prime zero a prime = absurd (omega (arith, prime.large))
one_add_pow_prime (suc n) a prime =
    let p = suc n in
    let whole : terms p a (suc p) ≡ terms p a p + a ^ p =
      omega (arith, ap (λ (t : ℕ). t * a ^ p) (choose_all p)) in
    ap (λ (t : ℕ). t % p) (one_add_pow p a ∙ whole)
    ∙ add-Congruent p (terms p a p) 1 (a ^ p) (a ^ p) (terms_low p a n prime (omega arith)) refl

pub pow_prime : (p a : ℕ) → IsPrime p → Congruent p (a ^ p) a
pow_prime zero a prime = absurd (omega (arith, prime.large))
pow_prime (suc n) zero prime = ap (λ (t : ℕ). t % suc n) (pow-suc 0 n ∙ omega arith)
pow_prime (suc n) (suc a) prime =
    let p = suc n in
    ap (λ (t : ℕ). t ^ p % p) (omega arith)
    ∙ one_add_pow_prime p a prime
    ∙ add-Congruent p 1 1 (a ^ p) a refl (pow_prime p a prime)
    ∙ ap (λ (t : ℕ). t % p) (omega arith)

pub drop : (p s t : ℕ) → 0 < p → Congruent p (s + t) s → t % p ≡ 0
drop p s t pos e =
    let r = s % p in
    let q = t % p in
    let sum : (r + q) % p ≡ r = sym (add-mod s t p) ∙ e in
    let hr : r < p = mod-lt s pos in
    let hq : q < p = mod-lt t pos in
    elim (dec_lt (r + q) p) [
      | yes lt ↦ omega (arith, sym (mod-eq_of_lt lt) ∙ sum)
      | no ge ↦
          let turn : (r + q - p) % p ≡ r = sym (mod-eq-sub-mod (omega arith)) ∙ sum in
          absurd (omega (arith, sym (mod-eq_of_lt {n = r + q - p} {m = p} (omega arith)) ∙ turn))
    ]

cancel_le :
    {p : ℕ}
    → IsPrime p
    → (a u v : ℕ) → 0 < a
    → a < p
    → u ≤ v
    → v < p
    → Congruent p (a * u) (a * v)
    → u ≡ v
cancel_le {p} prime a u v pos less le small e =
    let d = v - u in
    let split : a * u + a * d ≡ a * v = sym (mul-add a u d) ∙ ap (λ (t : ℕ). a * t) (omega arith) in
    let none : a * d % p ≡ 0 =
      drop p (a * u) (a * d) (omega arith) (ap (λ (t : ℕ). t % p) split ∙ sym e) in
    let same : d % p ≡ 0 = divides_factor prime (suc a) a d (omega arith) pos less none in
    omega (arith, sym (mod-eq_of_lt {n = d} {m = p} (omega arith)) ∙ same)

cancel :
    {p : ℕ}
    → IsPrime p
    → (a u v : ℕ) → 0 < a
    → a < p
    → u < p
    → v < p
    → Congruent p (a * u) (a * v)
    → u ≡ v
cancel {p} prime a u v pos less hu hv e = elim (dec_lt u v) [
  | yes lt ↦ cancel_le prime a u v pos less (omega arith) hv e
  | no ge ↦ sym (cancel_le prime a v u pos less (omega arith) hu (sym e))
]

pub pow_pred : (n a : ℕ) → IsPrime (suc n) → 0 < a → a < suc n → Congruent (suc n) (a ^ n) 1
pow_pred n a prime pos less =
    let p = suc n in
    let e : Congruent p (a * (a ^ n % p)) (a * 1) =
      mul-Congruent p a a (a ^ n % p) (a ^ n) refl (mod-mod (a ^ n) p)
      ∙ ap (λ (t : ℕ). t % p) (mul_comm a (a ^ n) ∙ sym (pow-suc a n))
      ∙ pow_prime p a prime
      ∙ ap (λ (t : ℕ). t % p) (sym (mul-one a)) in
    cancel prime a (a ^ n % p) 1 pos less (mod-lt (a ^ n) (omega arith)) prime.large e
    ∙ sym (mod-eq_of_lt prime.large)

-- An even power is a power of the square.
square_pow : (x m : ℕ) → (x * x) ^ m ≡ x ^ (2 * m)
square_pow x zero = rw (pow-zero (x * x), pow-zero x) refl
square_pow x (suc m) =
    let two : 2 * suc m ≡ suc (suc (2 * m)) = omega arith in
    pow-suc (x * x) m
    ∙ ap (λ (t : ℕ). t * (x * x)) (square_pow x m)
    ∙ sym (mul_assoc (x ^ (2 * m)) x x)
    ∙ sym (
        ap (λ (t : ℕ). x ^ t) two
        ∙ pow-suc x (suc (2 * m))
        ∙ ap (λ (t : ℕ). t * x) (pow-suc x (2 * m)))

one_pow : (m : ℕ) → 1 ^ m ≡ 1
one_pow zero = pow-zero 1
one_pow (suc m) = omega (arith, pow-suc 1 m, one_pow m)

-- The greatest remainder stands for -1: its odd powers are it.
minus_one_pow : (n j : ℕ) → Congruent (suc n) (n ^ suc (2 * j)) n
minus_one_pow zero j = omega arith
minus_one_pow (suc m) j =
    let n = suc m in
    let square : n * n ≡ m * suc n + 1 = omega (arith, suc-mul m n, mul-suc m n) in
    let one : Congruent (suc n) (n * n) 1 =
      ap (λ (t : ℕ). t % suc n) square ∙ mul-add-mod_self_right m (suc n) 1 in
    ap (λ (t : ℕ). t % suc n) (pow-suc n (2 * j) ∙ ap (λ (t : ℕ). t * n) (sym (square_pow n j)))
    ∙ mul-Congruent (suc n) ((n * n) ^ j) 1 n n
        (pow-Congruent (suc n) (n * n) 1 j one ∙ ap (λ (t : ℕ). t % suc n) (one_pow j)) refl
    ∙ ap (λ (t : ℕ). t % suc n) (omega arith)

mul_pow : (a b m : ℕ) → (a * b) ^ m ≡ a ^ m * b ^ m
mul_pow a b zero = rw (pow-zero (a * b), pow-zero a, pow-zero b) refl
mul_pow a b (suc m) =
    pow-suc (a * b) m
    ∙ ap (λ (t : ℕ). t * (a * b)) (mul_pow a b m)
    ∙ mul-mul-mul_comm (a ^ m) (b ^ m) a b
    ∙ sym (ap₂ ◌*◌ (pow-suc a m) (pow-suc b m))

square_pow_pred :
    (q x : ℕ)
    → IsPrime (suc (2 * q))
    → 0 < x
    → x < suc (2 * q)
    → Congruent (suc (2 * q)) ((x * x) ^ q) 1
square_pow_pred q x prime pos less =
    ap (λ (t : ℕ). t % suc (2 * q)) (square_pow x q) ∙ pow_pred (2 * q) x prime pos less

-- What adds up to 0 with `b` is -1 times `b`.
opposite : (n a b : ℕ) → Congruent (suc n) (a + b) 0 → Congruent (suc n) a (n * b)
opposite n a b e =
    sym (add-mul-mod_self_left a (suc n) b)
    ∙ ap (λ (t : ℕ). t % suc n) (omega (arith, suc-mul n b))
    ∙ add-Congruent (suc n) (a + b) 0 (n * b) (n * b) e refl
    ∙ ap (λ (t : ℕ). t % suc n) (omega arith)

-- No sum of two squares of remainders other than 0 is divisible by a prime `4 * j + 3`.
pub sum_of_squares :
    (j x y : ℕ)
    → IsPrime (suc (2 * suc (2 * j)))
    → 0 < x
    → x < suc (2 * suc (2 * j))
    → 0 < y
    → y < suc (2 * suc (2 * j))
    → (x * x + y * y) % suc (2 * suc (2 * j)) ≢ 0
sum_of_squares j x y prime px hx py hy e =
    let q = suc (2 * j) in
    let n = 2 * q in
    let p = suc n in
    let turned : Congruent p (x * x) (n * (y * y)) =
      opposite n (x * x) (y * y) (e ∙ sym (zero-mod p)) in
    let powers : Congruent p 1 (n * 1) =
      sym (square_pow_pred q x prime px hx)
      ∙ pow-Congruent p (x * x) (n * (y * y)) q turned
      ∙ ap (λ (t : ℕ). t % p) (mul_pow n (y * y) q)
      ∙ mul-Congruent p (n ^ q) n ((y * y) ^ q) 1 (minus_one_pow n j)
          (square_pow_pred q y prime py hy) in
    let same : 1 ≡ n =
      sym (mod-eq_of_lt {n = 1} {m = p} (omega arith))
      ∙ powers
      ∙ ap (λ (t : ℕ). t % p) (mul-one n)
      ∙ mod-eq_of_lt {n = n} {m = p} (omega arith) in
    omega (arith, same)
