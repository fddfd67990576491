-- ===== src/Bits/Xor.antt =====
-- The laws of exclusive or, and its right shift.
use native.Mathlib.Nat.{pow-zero, pow-suc, div-one, div-div-eq-div-mul}
use turf.Prelude.{ℕ, zero, suc, ◌/◌, ◌^◌, ◌<◌, bit_xor, ◌≡◌, refl, sym, ◌∙◌, ap, arith}
use turf.Bits.Digits.{by_halves, bit_xor_step}

pub xor-zero : (a : ℕ) → bit_xor a 0 ≡ a
xor-zero = by_halves (λ a. bit_xor a 0 ≡ a) refl (λ n pos ih. omega (arith, bit_xor_step n 0, ih))

pub zero-xor : (b : ℕ) → bit_xor 0 b ≡ b
zero-xor = by_halves (λ b. bit_xor 0 b ≡ b) refl (λ n pos ih. omega (arith, bit_xor_step 0 n, ih))

pub xor_self : (a : ℕ) → bit_xor a a ≡ 0
xor_self = by_halves (λ a. bit_xor a a ≡ 0) refl (λ n pos ih. omega (arith, bit_xor_step n n, ih))

pub xor_comm : (a b : ℕ) → bit_xor a b ≡ bit_xor b a
xor_comm =
    by_halves (λ a. (b : ℕ) → bit_xor a b ≡ bit_xor b a) (λ b. zero-xor b ∙ sym (xor-zero b))
      (λ n pos ih b. omega (arith, bit_xor_step n b, bit_xor_step b n, ih (b / 2)))

pub xor-div_two : (a b : ℕ) → bit_xor a b / 2 ≡ bit_xor (a / 2) (b / 2)
xor-div_two a b = omega (arith, bit_xor_step a b)

pub xor_assoc : (a b c : ℕ) → bit_xor (bit_xor a b) c ≡ bit_xor a (bit_xor b c)
xor_assoc =
    by_halves (λ a. (b c : ℕ) → bit_xor (bit_xor a b) c ≡ bit_xor a (bit_xor b c))
      (λ b c. ap (λ (t : ℕ). bit_xor t c) (zero-xor b) ∙ sym (zero-xor (bit_xor b c)))
      (λ n pos ih b c. step n b c (ih (b / 2) (c / 2)))
  where
    step :
        (n b c : ℕ)
        → bit_xor (bit_xor (n / 2) (b / 2)) (c / 2) ≡ bit_xor (n / 2) (bit_xor (b / 2) (c / 2))
        → bit_xor (bit_xor n b) c ≡ bit_xor n (bit_xor b c)
    step n b c h = ground (
      arith,
      bit_xor_step (bit_xor n b) c,
      bit_xor_step n (bit_xor b c),
      bit_xor_step n b,
      bit_xor_step b c,
      xor-div_two n b,
      xor-div_two b c,
      h,
    )

pub shr_suc : (a k : ℕ) → a / 2 ^ suc k ≡ a / 2 / 2 ^ k
shr_suc a k =
    ap (λ (t : ℕ). a / t) (omega (arith, pow-suc 2 k)) ∙ sym (div-div-eq-div-mul a 2 (2 ^ k))

pub xor-shr : (k a b : ℕ) → bit_xor a b / 2 ^ k ≡ bit_xor (a / 2 ^ k) (b / 2 ^ k)
xor-shr zero a b = simp (pow-zero, div-one)
xor-shr (suc k) a b = rw (shr_suc, shr_suc, shr_suc, xor-div_two) (xor-shr k (a / 2) (b / 2))

pub xor-lt : (k a b : ℕ) → a < 2 ^ k → b < 2 ^ k → bit_xor a b < 2 ^ k
xor-lt zero a b ha hb = ground arith
xor-lt (suc k) a b ha hb = omega (
  arith,
  bit_xor_step a b,
  pow-suc 2 k,
  xor-lt k (a / 2) (b / 2) (omega (arith, pow-suc 2 k)) (omega (arith, pow-suc 2 k)),
)

-- Xor with the part that was mixed in takes it out again.
pub xor_cancel : (a b : ℕ) → bit_xor (bit_xor a b) b ≡ a
xor_cancel a b = xor_assoc a b b ∙ ap (bit_xor a) (xor_self b) ∙ xor-zero a

pub xor_cancel_right : (a b c : ℕ) → bit_xor a c ≡ bit_xor b c → a ≡ b
xor_cancel_right a b c e = sym (xor_cancel a c) ∙ ap (λ (t : ℕ). bit_xor t c) e ∙ xor_cancel b c
