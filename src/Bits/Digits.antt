-- ===== src/Bits/Digits.antt =====
-- The native operations stand for a recursion on binary digits. Here is its equation for the
-- lowest digit, with no fuel, and induction by halving.
use Prim.Native.Nat.{digits, bitwise, differ, bit_and-bitwise, bit_or-bitwise, bit_xor-bitwise}
use turf.Prelude.{
  ℕ, zero, suc, ◌+◌, ◌-◌, ◌*◌, ◌/◌, ◌%◌, ◌≤◌, ◌<◌, min, max, bit_and, bit_or, bit_xor, ◌≡◌, refl,
  sym, ap, ◌∙◌, arith,
}

halves_below {ℓ} :
    (P : ℕ → Type ℓ) → P 0 → ((n : ℕ) → 0 < n → P (n / 2) → P n) → (k n : ℕ) → n < k → P n
halves_below P base step zero n h = absurd (omega arith)
halves_below P base step (suc k) zero h = base
halves_below P base step (suc k) (suc n) h =
    step (suc n) (omega arith) (halves_below P base step k (suc n / 2) (omega arith))

-- Induction on a number by halving it.
pub by_halves {ℓ} : (P : ℕ → Type ℓ) → P 0 → ((n : ℕ) → 0 < n → P (n / 2) → P n) → (n : ℕ) → P n
by_halves P base step n = halves_below P base step (suc n) n (omega arith)

-- Fuel beyond the first number changes nothing.
module _ (rest : ℕ → ℕ) (digit : ℕ → ℕ → ℕ) where
  no_digits : (fuel y : ℕ) → digits rest digit fuel 0 y ≡ digits rest digit 0 0 y
  no_digits zero y = refl
  no_digits (suc fuel) y = refl

  spare_fuel :
      (spare fuel x y : ℕ)
      → x ≤ fuel
      → digits rest digit (spare + fuel) x y ≡ digits rest digit fuel x y
  spare_fuel spare fuel zero y enough = no_digits (spare + fuel) y ∙ sym (no_digits fuel y)
  spare_fuel spare zero (suc x) y enough = absurd (omega arith)
  spare_fuel spare (suc fuel) (suc x) y enough =
      let e : spare + suc fuel ≡ suc (spare + fuel) = omega arith in
      rw e (omega (arith, spare_fuel spare fuel (suc x / 2) (y / 2) (omega arith)))

  lowest_digit :
      (x y : ℕ)
      → bitwise rest digit (suc x) y
        ≡ bitwise rest digit (suc x / 2) (y / 2) * 2 + digit (suc x % 2) (y % 2)
  lowest_digit x y =
      let half : ℕ = suc x / 2 in
      let e : x ≡ x - half + half = omega arith in
      omega (
        arith,
        ap (λ (n : ℕ). digits rest digit n half (y / 2)) e,
        spare_fuel (x - half) half half (y / 2) (omega arith),
      )

differ_lem : (x y : ℕ) → x < 2 → y < 2 → differ x y ≡ (x + y) % 2
differ_lem zero y p q = omega arith
differ_lem (suc zero) zero p q = refl
differ_lem (suc zero) (suc zero) p q = refl
differ_lem (suc zero) (suc (suc y)) p q = absurd (omega arith)
differ_lem (suc (suc x)) y p q = absurd (omega arith)

pub bit_xor_step : (x y : ℕ) → bit_xor x y ≡ bit_xor (x / 2) (y / 2) * 2 + (x % 2 + y % 2) % 2
bit_xor_step zero y = simp bit_xor-bitwise (omega arith)
bit_xor_step (suc x) y =
    rw (← differ_lem (suc x % 2) (y % 2) (omega arith) (omega arith))
      (simp bit_xor-bitwise (lowest_digit (λ t. t) differ x y))

pub bit_and_step : (x y : ℕ) → bit_and x y ≡ bit_and (x / 2) (y / 2) * 2 + min (x % 2) (y % 2)
bit_and_step zero y = simp bit_and-bitwise (omega arith)
bit_and_step (suc x) y = simp bit_and-bitwise (lowest_digit (λ t. 0) min x y)

pub bit_or_step : (x y : ℕ) → bit_or x y ≡ bit_or (x / 2) (y / 2) * 2 + max (x % 2) (y % 2)
bit_or_step zero y = simp bit_or-bitwise (omega arith)
bit_or_step (suc x) y = simp bit_or-bitwise (lowest_digit (λ t. t) max x y)
