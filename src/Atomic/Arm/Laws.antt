-- ===== src/Atomic/Arm/Laws.antt =====
-- The loops of `ldrex` and `strex` of turf/c/impl/atomic_gcc_arm.h.
use native.Mathlib.Nat.{mod-eq_of_lt}
use turf.Bits.Test.{mod-mod_pow}
use turf.Prelude.{
  ℕ, Bool, true, zero, suc, ◌+◌, ◌%◌, ◌^◌, ◌<◌, ◌≤◌, ◌==◌, ◌≡◌, some, inl, inr, arith, refl,
  Bool-cases, ◌∙◌, if◌then◌else◌,
}
use turf.Atomic.Bus.{M, Bus, ◌>>=◌, arrive, strex, put, own, own-arrive, Replaced}
use turf.Atomic.Bus.Laws.{Replaced-later, put-Replaced, Replaced-ext, arrive-monitor}
use turf.Atomic.Ops.{
  Rmw, op_exchange, op_add, op_and, op_or, rmw, meaning, Updates, Outcome, always, add_word,
  and_word, or_word,
}
use turf.Atomic.Arm.{llsc_loop, compare_exchange, exchange, fetch_add, ops}

-- The bus after `ldrex`, and when the next access is made.
abbrev pub linked : Bus → Bus
linked b = record (arrive b) { monitor = true }

abbrev pub tried : Bus → Bus
tried b = arrive (linked b)

pub own-tried : (b : Bus) → own (tried b).log ≡ own b.log
own-tried b = own-arrive (linked b) ∙ own-arrive b

pub llsc_loop-suc :
    (f : ℕ → ℕ) (n : ℕ) (b : Bus)
    → llsc_loop f (suc n) b ≡ (
        if (tried b).monitor
        then some ((arrive b).cell, put (f (arrive b).cell) (tried b))
        else llsc_loop f n (tried b))
unfolding llsc_loop
llsc_loop-suc f n b = elim (Bool-cases (tried b).monitor) [
  | inl held ↦ rw (held, llsc_loop, strex, ◌>>=◌) refl
  | inr lost ↦ rw (lost, llsc_loop, strex, ◌>>=◌) refl
]

pub llsc_loop-Replaced :
    (f : ℕ → ℕ) (n : ℕ) (b b' : Bus) (x : ℕ) → llsc_loop f n b ≡ some (x, b') → Replaced f b x b'
llsc_loop-Replaced f zero b b' x h = unfold llsc_loop in cc
llsc_loop-Replaced f (suc n) b b' x h =
    let step = llsc_loop-suc f n b in
    let untouched = own-tried b in
    elim (Bool-cases (tried b).monitor) [
      | inl held ↦ ground (
        arith,
        h,
        step,
        put-Replaced f b (tried b) (arrive b).cell untouched (arrive-monitor (linked b) held),
      )
      | inr lost ↦
          Replaced-later b (tried b) untouched
            (llsc_loop-Replaced f n (tried b) b' x (ground (arith, h, step)))
    ]

Outcome-later :
    (e d : ℕ) (b c b' : Bus) (x : ℕ)
    → own c.log ≡ own b.log
    → Outcome e d c x b'
    → Outcome e d b x b'
Outcome-later e d b c b' x same o = ground (arith, same, o)

pub compare_exchange-suc :
    (w n e d : ℕ) (b : Bus)
    → compare_exchange w (suc n) e d b ≡ (
        if (arrive b).cell == e
        then (if (tried b).monitor
            then some ((arrive b).cell, put (d % 2 ^ w) (tried b))
            else compare_exchange w n e d (tried b))
        else some ((arrive b).cell, linked b))
unfolding compare_exchange
compare_exchange-suc w n e d b = elim (Bool-cases ((arrive b).cell == e)) [
  | inl same ↦ elim (Bool-cases (tried b).monitor) [
    | inl held ↦ rw (same, held, compare_exchange, strex, ◌>>=◌) refl
    | inr lost ↦ rw (same, lost, compare_exchange, strex, ◌>>=◌) refl
  ]
  | inr other ↦ rw (other, compare_exchange, ◌>>=◌) refl
]

pub compare_exchange-Compares :
    (w n e d : ℕ)
    → d < 2 ^ w
    → (b b' : Bus) (x : ℕ) → compare_exchange w n e d b ≡ some (x, b')
    → Outcome e d b x b'
compare_exchange-Compares w zero e d fits b b' x h = unfold compare_exchange in cc
compare_exchange-Compares w (suc n) e d fits b b' x h =
    let step = compare_exchange-suc w n e d b in
    elim (Bool-cases ((arrive b).cell == e)) [
      | inl same ↦ elim (Bool-cases (tried b).monitor) [
        | inl held ↦ ground (
          arith,
          h,
          step,
          mod-eq_of_lt fits,
          put-Replaced (always d) b (tried b) (arrive b).cell (own-tried b)
              (arrive-monitor (linked b) held),
        )
        | inr lost ↦
            Outcome-later e d b (tried b) b' x (own-tried b)
              (compare_exchange-Compares w n e d fits (tried b) b' x (ground (arith, h, step)))
      ]
      | inr other ↦ ground (arith, h, step, own-arrive b)
    ]

exchange-Updates : (w n k : ℕ) → k < 2 ^ w → Updates (always k) (exchange w n k)
unfolding exchange
exchange-Updates w n k fits b b' x h =
    Replaced-ext (λ y. k % 2 ^ w) (always k) b b' x (mod-eq_of_lt fits)
      (llsc_loop-Replaced (λ y. k % 2 ^ w) n b b' x h)

fetch_add-Updates : (w n k : ℕ) → w ≤ 32 → Updates (add_word w k) (fetch_add w n k)
unfolding fetch_add
fetch_add-Updates w n k narrow b b' x h =
    Replaced-ext (λ y. (y + k) % 2 ^ 32 % 2 ^ w) (add_word w k) b b' x
      (mod-mod_pow w 32 (x + k) narrow)
      (llsc_loop-Replaced (λ y. (y + k) % 2 ^ 32 % 2 ^ w) n b b' x h)

pub rmw-Updates :
    (w : ℕ) (weak : ℕ → ℕ → M (Bool × ℕ)) (n : ℕ)
    → w ≤ 32
    → (op : Rmw) (k : ℕ) → k < 2 ^ w
    → Updates (meaning w op k) (rmw (ops w weak n) op k)
unfolding ops
rmw-Updates w weak n narrow op_exchange k fits = exchange-Updates w n k fits
rmw-Updates w weak n narrow op_add k fits = fetch_add-Updates w n k narrow
rmw-Updates w weak n narrow op_and k fits = llsc_loop-Replaced (and_word w k) n
rmw-Updates w weak n narrow op_or k fits = llsc_loop-Replaced (or_word w k) n

-- On ARM an exchange, fetchAdd, fetchAnd or fetchOr on `w` bits, at most 32, and on an operand `k` of
-- that width, that returns has replaced the value that it returns by what the operation makes of it,
-- in one store and no other; whatever the other threads do, and however often the monitor is lost.
pub arm_rmw-Replaced :
    (w : ℕ) (weak : ℕ → ℕ → M (Bool × ℕ)) (n : ℕ)
    → w ≤ 32
    → (op : Rmw) (k : ℕ) → k < 2 ^ w
    → (b b' : Bus) (x : ℕ) → rmw (ops w weak n) op k b ≡ some (x, b')
    → Replaced (meaning w op k) b x b'
arm_rmw-Replaced w weak n narrow op k fits b b' x h = rmw-Updates w weak n narrow op k fits b b' x h

-- On ARM a compareExchange on `w` bits, for a `d` of that width, that returns `e` has stored `d`
-- over it; one that returns another value has stored nothing; whatever the other threads do.
pub arm_compare_exchange-Outcome :
    (w : ℕ) (weak : ℕ → ℕ → M (Bool × ℕ)) (n e d : ℕ)
    → d < 2 ^ w
    → (b b' : Bus) (x : ℕ) → (ops w weak n).compare_exchange e d b ≡ some (x, b')
    → Outcome e d b x b'
unfolding ops
arm_compare_exchange-Outcome w weak n e d fits b b' x h =
    compare_exchange-Compares w n e d fits b b' x h
