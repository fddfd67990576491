-- ===== src/Prelude/Threads.antt =====
-- Families indexed by a thread: an update at one index, and how many of the first `n` threads are
-- at a point.
use Prim.Native.Nat.{ℕ, zero, suc, ◌+◌, ◌≤◌, ◌<◌}
use mathlib.Core.Path.{◌≡◌, refl}
use mathlib.Core.Logic.{ite}
use native.Mathlib.Decide.{dec_lt, ℕ_discrete}
use native.Mathlib.Omega.{arith}

abbrev pub update {ℓ} : {A : Type ℓ} → (ℕ → A) → ℕ → A → ℕ → A
update pc i a j = ite (ℕ_discrete i j) a (pc j)

module _ {ℓ} {A : Type ℓ} (at : A → ℕ) where
  pub tally : ℕ → (ℕ → A) → ℕ
  tally zero pc = 0
  tally (suc n) pc = tally n pc + at (pc n)

  tally-update_ge :
      (n : ℕ) (pc : ℕ → A) (i : ℕ) (a : A) → n ≤ i → tally n (update pc i a) ≡ tally n pc
  unfolding tally
  tally-update_ge zero pc i a h = refl
  tally-update_ge (suc n) pc i a h = ground (arith, tally-update_ge n pc i a)

  -- One thread moves: its old point is left and its new one is reached.
  pub tally-update :
      (n : ℕ) (pc : ℕ → A) (i : ℕ) (a : A)
      → i < n
      → tally n (update pc i a) + at (pc i) ≡ tally n pc + at a
  unfolding tally
  tally-update zero pc i a h = absurd (omega arith)
  tally-update (suc n) pc i a h = elim (dec_lt i n) [
    | yes below ↦ ground (arith, tally-update n pc i a below)
    | no last ↦ ground (arith, tally-update_ge n pc i a)
  ]

  pub tally-le : ((a : A) → at a ≤ 1) → (n : ℕ) (pc : ℕ → A) → tally n pc ≤ n
  unfolding tally
  tally-le one zero pc = omega arith
  tally-le one (suc n) pc = omega (arith, one (pc n), tally-le one n pc)

  -- If all are counted, each one is.
  pub tally_full :
      ((a : A) → at a ≤ 1) → (n : ℕ) (pc : ℕ → A) → n ≤ tally n pc → (i : ℕ) → i < n → at (pc i) ≡ 1
  unfolding tally
  tally_full one zero pc h i lt = absurd (omega arith)
  tally_full one (suc n) pc h i lt = elim (dec_lt i n) [
    | yes below ↦ tally_full one n pc (omega (arith, one (pc n), tally-le one n pc)) i below
    | no last ↦ let e : i ≡ n = omega arith in ground (arith, e, one (pc n), tally-le one n pc)
  ]

  pub tally-zero : (n : ℕ) (pc : ℕ → A) → ((i : ℕ) → i < n → at (pc i) ≡ 0) → tally n pc ≡ 0
  unfolding tally
  tally-zero zero pc h = refl
  tally-zero (suc n) pc h =
      omega (arith, h n (omega arith), tally-zero n pc (λ i lt. h i (omega arith)))

  -- If not all are counted, there is one that is not.
  pub tally_short :
      ((a : A) → at a ≤ 1)
      → (n : ℕ) (pc : ℕ → A) → tally n pc < n
      → (i : ℕ) × (i < n) × (at (pc i) ≡ 0)
  unfolding tally
  tally_short one zero pc h = absurd (omega arith)
  tally_short one (suc n) pc h = elim (dec_lt 0 (at (pc n))) [
    | yes counted ↦ let (i, lt, none) = tally_short one n pc (omega arith) in (i, omega arith, none)
    | no free ↦ (n, omega arith, omega arith)
  ]

  -- One more thread.
  pub tally-extend :
      (n : ℕ) (pc : ℕ → A) (a : A) → tally (n + 1) (update pc n a) ≡ tally n pc + at a
  unfolding tally
  tally-extend n pc a =
      let e : n + 1 ≡ suc n = omega arith in
      rw e (ground (arith, tally-update_ge n pc n a (omega arith)))

  -- Threads that are not counted can be left out.
  pub tally_cut :
      (k n : ℕ) (pc : ℕ → A)
      → ((i : ℕ) → n ≤ i → i < n + k → at (pc i) ≡ 0)
      → tally (n + k) pc ≡ tally n pc
  unfolding tally
  tally_cut zero n pc h = let e : n + 0 ≡ n = omega arith in rw e refl
  tally_cut (suc k) n pc h =
      let e : n + suc k ≡ suc (n + k) = omega arith in
      rw e (
        omega (
          arith,
          h (n + k) (omega arith) (omega arith),
          tally_cut k n pc (λ i le lt. h i le (omega (arith, lt))),
        ))
