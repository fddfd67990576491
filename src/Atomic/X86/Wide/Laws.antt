-- ===== src/Atomic/X86/Wide/Laws.antt =====
-- The section of turf/c/impl/atomic_gcc_x86-64.h for 64 bits on a 32-bit processor.
use turf.Prelude.{
  ℕ, zero, suc, ◌<◌, ◌^◌, ◌==◌, ==_iff, ◌≡◌, some, ◌⊎◌, inl, inr, arith, Bool-cases, ◌∙◌, sym,
  if◌then◌else◌,
}
use turf.Atomic.Bus.{
  Bus, ret, ◌>>=◌, >>=-eq-some, read_torn, cmpxchg, own, own-arrive, Replaced, Observed,
}
use turf.Atomic.Bus.Laws.{Replaced-later}
use turf.Atomic.Ops.{
  IsAtomic, IsAtomic-rmw, Rmw, rmw, meaning, Stores, Updates, Reads, always, add_word, and_word,
  or_word,
}
use turf.Atomic.X86.{compare_exchange}
use turf.Atomic.X86.Laws.{
  cmpxchg-Compares, compare_exchange-Compares, compare_exchange_weak-ComparesWeak,
}
use turf.Atomic.X86.Wide.{
  load64, store_loop, store64, exchange_loop, exchange64, fetch64_loop, fetch_add64, fetch_and64,
  fetch_or64, wide_ops,
}

pub read_torn-own : (b b' : Bus) (x : ℕ) → read_torn b ≡ some (x, b') → own b'.log ≡ own b.log
unfolding read_torn
read_torn-own b b' x h = ground (arith, own-arrive b)

pub load64-Reads : (dummy : ℕ) → Reads (load64 dummy)
unfolding load64
load64-Reads dummy b b' x h =
    let (r, c, first, last) = >>=-eq-some (cmpxchg dummy dummy) (λ r. ret r.0) b b' x h in
    ground (arith, last, cmpxchg-Compares dummy dummy b c r first)

pub store_loop-Stores : (d n e : ℕ) → Stores d (store_loop d n e)
unfolding store_loop
store_loop-Stores d zero e b b' h = cc
store_loop-Stores d (suc n) e b b' h =
    let (r, c, first, rest) =
      >>=-eq-some (cmpxchg e d) (λ r. if r.1 then ret tt else store_loop d n r.0) b b' tt h in
    elim (cmpxchg-Compares e d b c r first) [
      | inl done ↦ (r.0, ground (arith, done, rw done.0 at rest))
      | inr (failed, differ, seen) ↦
          let (x, rep) = store_loop-Stores d n r.0 c b' (rw failed at rest) in
          (x, Replaced-later b c seen.never rep)
    ]

exchange_loop-Replaced : (d n p : ℕ) → Updates (always d) (exchange_loop d n p)
unfolding exchange_loop
exchange_loop-Replaced d zero p b b' x h = cc
exchange_loop-Replaced d (suc n) p b b' x h =
    let (q, c, first, rest) =
      >>=-eq-some (compare_exchange p d) (λ q. if p == q then ret p else exchange_loop d n q) b b' x
        h in
    elim (compare_exchange-Compares p d b c q first) [
      | inl (same, done) ↦ ground (arith, done, rw ((==_iff p q).1 (sym same)) at rest, same)
      | inr (differ, seen) ↦ elim (Bool-cases (p == q)) [
        | inl equal ↦ absurd (differ (sym ((==_iff p q).0 equal)))
        | inr more ↦
            Replaced-later b c seen.never (exchange_loop-Replaced d n q c b' x (rw more at rest))
      ]
    ]

fetch64_loop-Replaced : (f : ℕ → ℕ) (n : ℕ) → Updates f (fetch64_loop f n)
unfolding fetch64_loop
fetch64_loop-Replaced f zero b b' x h = cc
fetch64_loop-Replaced f (suc n) b b' x h =
    let (p, a, read, chain) =
      >>=-eq-some read_torn
        (λ p. do q ← compare_exchange p (f p); if q == p then ret p else fetch64_loop f n) b b' x
        h in
    let (q, c, first, rest) =
      >>=-eq-some (compare_exchange p (f p)) (λ q. if q == p then ret p else fetch64_loop f n) a b'
        x chain in
    elim (compare_exchange-Compares p (f p) a c q first) [
      | inl (same, done) ↦
          ground (arith, done, rw ((==_iff q p).1 same) at rest, same, read_torn-own b a p read)
      | inr (differ, seen) ↦ elim (Bool-cases (q == p)) [
        | inl equal ↦ absurd (differ ((==_iff q p).0 equal))
        | inr more ↦
            Replaced-later b c (seen.never ∙ read_torn-own b a p read)
              (fetch64_loop-Replaced f n c b' x (rw more at rest))
      ]
    ]

pub wide_ops-IsAtomic : (dummy n : ℕ) → IsAtomic 64 (wide_ops dummy n)
unfolding wide_ops store64 exchange64 fetch_add64 fetch_and64 fetch_or64
wide_ops-IsAtomic dummy n = record {
  load = load64-Reads dummy;
  store = λ v fits b b' h.
      let (e, c, read, rest) = >>=-eq-some read_torn (λ e. store_loop v n e) b b' tt h in
      let (x, rep) = store_loop-Stores v n e c b' rest in
      (x, Replaced-later b c (read_torn-own b c e read) rep);
  compare_exchange = λ e d he hd. compare_exchange-Compares e d;
  compare_exchange_weak = λ e d he hd. compare_exchange_weak-ComparesWeak e d;
  exchange = λ d fits b b' x h.
      let (p, c, read, rest) = >>=-eq-some read_torn (λ p. exchange_loop d n p) b b' x h in
      Replaced-later b c (read_torn-own b c p read) (exchange_loop-Replaced d n p c b' x rest);
  fetch_add = λ k fits. fetch64_loop-Replaced (add_word 64 k) n;
  fetch_and = λ k fits. fetch64_loop-Replaced (and_word 64 k) n;
  fetch_or = λ k fits. fetch64_loop-Replaced (or_word 64 k) n;
}

-- On a 32-bit x86 processor a 64-bit exchange, fetchAdd, fetchAnd or fetchOr, on an operand below
-- `2 ^ 64`, that returns has replaced the value that it returns by what the operation makes of it,
-- in one store and no other; whatever the other threads do, and however the plain reads of its
-- loop tear.
pub wide_rmw-Replaced :
    (dummy n : ℕ) (op : Rmw) (k : ℕ)
    → k < 2 ^ 64
    → (b b' : Bus) (x : ℕ) → rmw (wide_ops dummy n) op k b ≡ some (x, b')
    → Replaced (meaning 64 op k) b x b'
wide_rmw-Replaced dummy n op k fits b b' x h =
    IsAtomic-rmw 64 (wide_ops dummy n) (wide_ops-IsAtomic dummy n) op k fits b b' x h

-- On a 32-bit x86 processor a 64-bit load returns what the cell holds, whole, and either has stored
-- nothing or has stored that same value back.
pub wide_load-Reads :
    (dummy n : ℕ) (b b' : Bus) (x : ℕ)
    → (wide_ops dummy n).load b ≡ some (x, b')
    → Observed b x b' ⊎ Replaced (λ y. y) b x b'
wide_load-Reads dummy n b b' x h = (wide_ops-IsAtomic dummy n).load b b' x h

-- On a 32-bit x86 processor a 64-bit store of `v`, below `2 ^ 64`, that returns has stored `v`
-- once, and it is what the cell holds.
pub wide_store-Stores :
    (dummy n v : ℕ)
    → v < 2 ^ 64
    → (b b' : Bus) → (wide_ops dummy n).store v b ≡ some (tt, b')
    → (x : ℕ) × Replaced (always v) b x b'
wide_store-Stores dummy n v fits b b' h = (wide_ops-IsAtomic dummy n).store v fits b b' h
