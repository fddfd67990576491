-- ===== src/Sequence/Permute.antt =====
-- turf/extra/UniqueSequence.h: `permute` on the 32-bit words.
use native.Mathlib.Nat.{mod-eq_of_lt, mul-le-mul, add-mul, mul_comm, mul-add}
use turf.Prelude.{
  ℕ, suc, ◌+◌, ◌-◌, ◌*◌, ◌/◌, ◌%◌, ◌^◌, ◌≤◌, ◌<◌, ◌≡◌, ◌≢◌, ◌⊎◌, inl, inr, refl, sym, ap, ◌∙◌,
  arith, dec_lt,
}
use turf.Numbers.Prime.{IsPrime, divided_by_none, IsPrime-of_trial, divides_factor}
use turf.Numbers.Fermat.{drop, sum_of_squares}
use turf.Sequence.{prime, permute}

pub prime-IsPrime : IsPrime prime
unfolding divided_by_none
prime-IsPrime = IsPrime-of_trial prime 16 (omega arith) refl (omega arith)

residue : ℕ → ℕ
residue x = x * x % prime

-- The three cases of the code.
permute_high : (x : ℕ) → prime ≤ x → permute x ≡ x
unfolding permute
permute_high x h = ground arith

square_small : (x : ℕ) → x < prime → x * x % 2 ^ 64 ≡ x * x
square_small x h = mod-eq_of_lt (
    omega
      (arith, mul-le-mul {n₁ = x} {m₁ = x} {n₂ = prime} {m₂ = prime} (omega arith) (omega arith)))

permute_low : (x : ℕ) → x ≤ prime / 2 → permute x ≡ residue x
unfolding permute residue
permute_low x h = ground (arith, square_small x)

permute_middle : (x : ℕ) → prime / 2 < x → x < prime → permute x ≡ prime - residue x
unfolding permute residue
permute_middle x h less = ground (arith, square_small x)

-- The square of a remainder other than 0 leaves a remainder other than 0.
residue-pos : (x : ℕ) → 0 < x → x < prime → 0 < residue x
unfolding residue
residue-pos x pos less = elim (dec_lt 0 (x * x % prime)) [
  | yes h ↦ h
  | no h ↦
      let none : x % prime ≡ 0 =
        divides_factor prime-IsPrime (suc x) x x (omega arith) pos less (omega arith) in
      absurd (omega (arith, none))
]

residue-lt : (x : ℕ) → residue x < prime
unfolding residue
residue-lt x = omega arith

-- Two numbers with the same square, neither greater than the other's complement, are the same.
same_square_le :
    (x y : ℕ) → x ≤ y → y < prime → residue x ≡ residue y → (x ≡ y) ⊎ ((x + y) % prime ≡ 0)
unfolding residue
same_square_le x y le less e =
    let d = y - x in
    let back : x + d ≡ y = omega arith in
    let squares : x * x + d * (x + y) ≡ y * y = omega (
      arith,
      mul-add d x y,
      add-mul x d y ∙ refl,
      ap (λ (t : ℕ). t * y) back,
      mul-add x x d,
      ap (λ (t : ℕ). x * t) back,
      mul_comm x d,
    ) in
    let none : d * (x + y) % prime ≡ 0 =
      drop prime (x * x) (d * (x + y)) (omega arith) (ap (λ (t : ℕ). t % prime) squares ∙ sym e) in
    elim (dec_lt 0 d) [
      | no same ↦ inl (omega arith)
      | yes pos ↦
          inr (divides_factor prime-IsPrime (suc d) d (x + y) (omega arith) pos (omega arith) none)
    ]

-- In one half of the remainders the squares are different.
same_half :
    (x y : ℕ)
    → x < prime
    → y < prime
    → ((x ≤ prime / 2) × (y ≤ prime / 2)) ⊎ ((prime / 2 < x) × (prime / 2 < y))
    → residue x ≡ residue y
    → x ≡ y
same_half x y hx hy half e = elim (dec_lt y x) [
  | yes lt ↦ elim (same_square_le y x (omega arith) hx (sym e)) [
    | inl same ↦ sym same
    | inr sum ↦ ground (arith, half, sum)
  ]
  | no ge ↦ elim (same_square_le x y (omega arith) hy e) [
    | inl same ↦ same
    | inr sum ↦ ground (arith, half, sum)
  ]
]

-- A square and the complement of a square are different, as the prime leaves 3 by 4.
halves_apart : (x y : ℕ) → x ≤ prime / 2 → prime / 2 < y → y < prime → residue x ≢ prime - residue y
unfolding residue
halves_apart x y hx hy less e = elim (dec_lt 0 x) [
  | no empty ↦ let none : x ≡ 0 = omega arith in omega (arith, ap residue none, e, residue-lt y)
  | yes pos ↦
      sum_of_squares 1073741822 x y prime-IsPrime pos (omega arith) (omega arith) less
        (omega (arith, e, residue-lt y))
]

permute-lt : (x : ℕ) → x < prime → permute x < prime
permute-lt x h = elim (dec_lt (prime / 2) x) [
  | yes middle ↦
      omega (arith, permute_middle x middle h, residue-pos x (omega arith) h, residue-lt x)
  | no low ↦ omega (arith, permute_low x (omega arith), residue-lt x)
]

permute_inj_low : (x y : ℕ) → x < prime → y < prime → permute x ≡ permute y → x ≡ y
permute_inj_low x y hx hy e = elim (dec_lt (prime / 2) x) [
  | yes mx ↦ elim (dec_lt (prime / 2) y) [
    | yes my ↦ same_half x y hx hy (inr (mx, my)) (
        omega
          (arith, e, permute_middle x mx hx, permute_middle y my hy, residue-lt x, residue-lt y))
    | no ly ↦ absurd (
        halves_apart y x (omega arith) mx hx
          (omega (arith, e, permute_middle x mx hx, permute_low y (omega arith))))
  ]
  | no lx ↦ elim (dec_lt (prime / 2) y) [
    | yes my ↦ absurd (
        halves_apart x y (omega arith) my hy
          (omega (arith, e, permute_low x (omega arith), permute_middle y my hy)))
    | no ly ↦
        same_half x y hx hy (inl (omega arith, omega arith))
          (omega (arith, e, permute_low x (omega arith), permute_low y (omega arith)))
  ]
]

pub permute_word : (x : ℕ) → x < 2 ^ 32 → permute x < 2 ^ 32
permute_word x h = elim (dec_lt x prime) [
  | yes low ↦ omega (arith, permute-lt x low)
  | no high ↦ omega (arith, permute_high x (omega arith))
]

pub permute_injective : (x y : ℕ) → x < 2 ^ 32 → y < 2 ^ 32 → permute x ≡ permute y → x ≡ y
permute_injective x y hx hy e = elim (dec_lt x prime) [
  | yes lx ↦ elim (dec_lt y prime) [
    | yes ly ↦ permute_inj_low x y lx ly e
    | no gy ↦ omega (arith, e, permute-lt x lx, permute_high y (omega arith))
  ]
  | no gx ↦ elim (dec_lt y prime) [
    | yes ly ↦ omega (arith, e, permute-lt y ly, permute_high x (omega arith))
    | no gy ↦ omega (arith, e, permute_high x (omega arith), permute_high y (omega arith))
  ]
]

-- `permute` maps two different 32-bit words to different words.
pub permute_distinct : (x y : ℕ) → x < 2 ^ 32 → y < 2 ^ 32 → x ≢ y → permute x ≢ permute y
permute_distinct x y hx hy differ e = differ (permute_injective x y hx hy e)
