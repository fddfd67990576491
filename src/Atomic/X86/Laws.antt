-- ===== src/Atomic/X86/Laws.antt =====
-- The operations of turf/c/impl/atomic_gcc_x86-64.h at one width.
use turf.Prelude.{
  ℕ, Bool, true, false, zero, suc, ◌^◌, ◌<◌, ◌==◌, ◌≡◌, some, ◌≢◌, ◌⊎◌, inl, inr, arith, refl,
  Bool-cases, ◌∙◌, if◌then◌else◌, ==_iff,
}
use turf.Atomic.Bus.{
  Bus, ret, >>=-eq-some, arrive, cmpxchg, modify, put, own, own-arrive, ◌>>=◌, Replaced, Observed,
}
use turf.Atomic.Bus.Laws.{Replaced-later, put-Replaced, read-Observed, write-Stores}
use turf.Atomic.Ops.{
  Compares, ComparesWeak, IsAtomic, IsAtomic-rmw, Rmw, rmw, meaning, Outcome, WeakOutcome, always,
  add_word, and_word, or_word,
}
use turf.Atomic.X86.{fetch_loop, compare_exchange, compare_exchange_weak, ops}

fetch_loop-suc :
    (f : ℕ → ℕ) (n : ℕ) (b : Bus)
    → fetch_loop f (suc n) b ≡ (
        let c = arrive b in
        let d = arrive c in
        if d.cell == c.cell then some (c.cell, put (f c.cell) d) else fetch_loop f n d)
unfolding fetch_loop
fetch_loop-suc f n b = elim (Bool-cases ((arrive (arrive b)).cell == (arrive b).cell)) [
  | inl same ↦ rw (same, fetch_loop, cmpxchg, ◌>>=◌) refl
  | inr other ↦ rw (other, fetch_loop, cmpxchg, ◌>>=◌) refl
]

fetch_loop-Replaced :
    (f : ℕ → ℕ) (n : ℕ) (b b' : Bus) (x : ℕ) → fetch_loop f n b ≡ some (x, b') → Replaced f b x b'
fetch_loop-Replaced f zero b b' x h = unfold fetch_loop in cc
fetch_loop-Replaced f (suc n) b b' x h =
    let c = arrive b in
    let d = arrive c in
    let step = fetch_loop-suc f n b in
    let untouched : own d.log ≡ own b.log = own-arrive c ∙ own-arrive b in
    elim (Bool-cases (d.cell == c.cell)) [
      | inl same ↦
          ground (arith, h, step, put-Replaced f b d c.cell untouched ((==_iff _ _).0 same))
      | inr other ↦
          Replaced-later b d untouched (fetch_loop-Replaced f n d b' x (ground (arith, h, step)))
    ]

-- A locked exchange on a condition.
pub cmpxchg-Compares :
    (e d : ℕ) (b b' : Bus) (r : ℕ × Bool)
    → cmpxchg e d b ≡ some (r, b')
    → ((r.1 ≡ true) × (r.0 ≡ e) × Replaced (always d) b r.0 b')
      ⊎ ((r.1 ≡ false) × (r.0 ≢ e) × Observed b r.0 b')
unfolding cmpxchg put
cmpxchg-Compares e d b b' r h = ground (arith, own-arrive b)

pub modify-Replaced :
    (f : ℕ → ℕ) (b b' : Bus) (x : ℕ) → modify f b ≡ some (x, b') → Replaced f b x b'
unfolding modify put
modify-Replaced f b b' x h = ground (arith, own-arrive b)

pub compare_exchange-Compares : (e d : ℕ) → Compares e d (compare_exchange e d)
unfolding compare_exchange
compare_exchange-Compares e d b b' x h =
    let (r, c, first, last) = >>=-eq-some (cmpxchg e d) (λ r. ret r.0) b b' x h in
    ground (arith, last, cmpxchg-Compares e d b c r first)

pub compare_exchange_weak-ComparesWeak : (e d : ℕ) → ComparesWeak e d (compare_exchange_weak e d)
unfolding compare_exchange_weak
compare_exchange_weak-ComparesWeak e d b b' m s h =
    let (r, c, first, last) =
      >>=-eq-some (cmpxchg e d) (λ r. ret (r.0 == e, if r.0 == e then e else r.0)) b b' (m, s) h in
    ground (arith, last, cmpxchg-Compares e d b c r first)

pub ops-IsAtomic : (w n : ℕ) → IsAtomic w (ops w n)
unfolding ops
ops-IsAtomic w n = record {
  load = λ b b' x h. inl (read-Observed b b' x h);
  store = λ v fits. write-Stores v;
  compare_exchange = λ e d he hd. compare_exchange-Compares e d;
  compare_exchange_weak = λ e d he hd. compare_exchange_weak-ComparesWeak e d;
  exchange = λ d fits b b' x h. modify-Replaced (always d) b b' x h;
  fetch_add = λ k fits b b' x h. modify-Replaced (add_word w k) b b' x h;
  fetch_and = λ k fits b b' x h. fetch_loop-Replaced (and_word w k) n b b' x h;
  fetch_or = λ k fits b b' x h. fetch_loop-Replaced (or_word w k) n b b' x h;
}

-- On x86 an exchange, fetchAdd, fetchAnd or fetchOr at any width `w`, on an operand `k` of that width,
-- that returns has replaced the value that it returns by what the operation makes of it, in one
-- store, which is the last one to the cell, and has made no other; whatever the other threads do, and
-- for any number `n` of rounds that a loop is given.
pub x86_rmw-Replaced :
    (w n : ℕ) (op : Rmw) (k : ℕ)
    → k < 2 ^ w
    → (b b' : Bus) (x : ℕ) → rmw (ops w n) op k b ≡ some (x, b')
    → Replaced (meaning w op k) b x b'
x86_rmw-Replaced w n op k fits b b' x h =
    IsAtomic-rmw w (ops w n) (ops-IsAtomic w n) op k fits b b' x h

-- On x86 a compareExchange that returns `e` has stored `d` over it; one that returns another value has
-- stored nothing, and the cell holds that value; whatever the other threads do.
pub x86_compare_exchange-Outcome :
    (w n e d : ℕ) (b b' : Bus) (x : ℕ)
    → (ops w n).compare_exchange e d b ≡ some (x, b')
    → Outcome e d b x b'
unfolding ops
x86_compare_exchange-Outcome w n e d b b' x h = compare_exchange-Compares e d b b' x h

-- On x86 a compareExchangeWeak that reports success has replaced `e` by `d`, and leaves `e` in
-- `*expected`; one that reports failure has stored nothing.
pub x86_weak-Outcome :
    (w n e d : ℕ) (b b' : Bus) (matched : Bool) (seen : ℕ)
    → (ops w n).compare_exchange_weak e d b ≡ some ((matched, seen), b')
    → WeakOutcome e d b matched seen b'
unfolding ops
x86_weak-Outcome w n e d b b' m s h = compare_exchange_weak-ComparesWeak e d b b' m s h
