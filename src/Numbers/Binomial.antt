-- ===== src/Numbers/Binomial.antt =====
-- Binomial coefficients, and the powers of `1 + a`.
use native.Mathlib.Nat.{pow-suc, pow-zero, suc-mul, add-mul, mul-add, mul_comm, mul_assoc}
use turf.Prelude.{ℕ, zero, suc, ◌+◌, ◌*◌, ◌^◌, ◌<◌, ◌≡◌, refl, sym, ap, ◌∙◌, arith}

unfoldable pub choose : ℕ → ℕ → ℕ
choose n zero = 1
choose zero (suc k) = 0
choose (suc n) (suc k) = choose n k + choose n (suc k)

pub choose_beyond : (n k : ℕ) → n < k → choose n k ≡ 0
unfolding choose
choose_beyond n zero h = absurd (omega arith)
choose_beyond zero (suc k) h = refl
choose_beyond (suc n) (suc k) h =
    omega (arith, choose_beyond n k (omega arith), choose_beyond n (suc k) (omega arith))

pub choose_all : (n : ℕ) → choose n n ≡ 1
unfolding choose
choose_all zero = refl
choose_all (suc n) = omega (arith, choose_all n, choose_beyond n (suc n) (omega arith))

pub absorb : (n k : ℕ) → suc k * choose (suc n) (suc k) ≡ suc n * choose n k
unfolding choose
absorb zero zero = refl
absorb zero (suc k) = omega arith
absorb (suc n) zero = omega (arith, absorb n zero)
absorb (suc n) (suc k) =
    let here = choose n k in
    let next = choose n (suc k) in
    let beyond = choose n (suc (suc k)) in
    omega (
      arith,
      absorb n k,
      absorb n (suc k),
      suc-mul (suc k) (here + next),
      suc-mul (suc n) (here + next),
      mul-add (suc (suc k)) (here + next) (next + beyond),
      mul-add (suc n) here next,
    )

-- The first `k` terms of the expansion of `(1 + a) ^ n`.
unfoldable pub terms : ℕ → ℕ → ℕ → ℕ
unfolding choose
terms n a zero = 0
terms n a (suc k) = terms n a k + choose n k * a ^ k

terms-suc : (n a k : ℕ) → terms (suc n) a (suc k) ≡ a * terms n a k + terms n a (suc k)
unfolding terms
terms-suc n a zero = omega arith
terms-suc n a (suc k) =
    let here = choose n k in
    let next = choose n (suc k) in
    let moved : here * a ^ suc k ≡ a * (here * a ^ k) =
      ap (λ (t : ℕ). here * t) (pow-suc a k)
      ∙ sym (mul_assoc here (a ^ k) a)
      ∙ mul_comm (here * a ^ k) a in
    omega (
      arith,
      terms-suc n a k,
      moved,
      add-mul here next (a ^ suc k),
      mul-add a (terms n a k) (here * a ^ k),
    )

pub one_add_pow : (n a : ℕ) → (1 + a) ^ n ≡ terms n a (suc n)
unfolding terms
one_add_pow zero a = rw (pow-zero (1 + a), pow-zero a) refl
one_add_pow (suc n) a =
    let last : terms n a (suc (suc n)) ≡ terms n a (suc n) =
      omega (arith, ap (λ (t : ℕ). t * a ^ suc n) (choose_beyond n (suc n) (omega arith))) in
    pow-suc (1 + a) n
    ∙ ap (λ (t : ℕ). t * (1 + a)) (one_add_pow n a)
    ∙ omega (
      arith,
      mul_comm (terms n a (suc n)) (1 + a),
      add-mul 1 a (terms n a (suc n)),
      terms-suc n a (suc n),
      last,
    )
