-- ===== src/Atomic/Msvc/Laws.antt =====
-- The loops of turf/c/impl/atomic_msvc.h, over intrinsics that do what their documentation says.
use turf.Prelude.{
  ℕ, zero, suc, ◌==◌, ==_iff, Bool, true, false, if◌then◌else◌, ◌≡◌, some, ◌⊎◌, inl, inr, arith,
  Bool-cases, refl, ap, ◌∙◌, sym, List, [], ◌∷◌,
}
use turf.Atomic.Bus.{
  Event, mine, theirs, acquire_fence, release_fence, Bus, ret, ◌>>=◌, >>=-eq-some, read_torn, own,
  Replaced,
}
use turf.Atomic.Ops.{Rmw, op_exchange, op_add, op_and, op_or, rmw, meaning, always, Stores}
use turf.Atomic.X86.Wide.Laws.{read_torn-own, store_loop-Stores}
use turf.Atomic.Msvc.{
  Intrinsics, IsInterlocked, stores, ReplacedOnce, UpdatesOnce, compare_exchange_weak, ops,
  retry_loop, store64, exchange64, fetch_add64, fetch_and64, fetch_or64, wide_ops,
}

pub stores-own : (l : List Event) → stores (own l) ≡ stores l
stores-own [] = refl
stores-own (mine x y ∷ l) = ap (λ (t : List Event). mine x y ∷ t) (stores-own l)
stores-own (theirs x y ∷ l) = stores-own l
stores-own (acquire_fence ∷ l) = stores-own l
stores-own (release_fence ∷ l) = stores-own l

pub stores_of_own : (l m : List Event) → own l ≡ own m → stores l ≡ stores m
stores_of_own l m e = sym (stores-own l) ∙ ap stores e ∙ stores-own m

pub Replaced-ReplacedOnce :
    {f : ℕ → ℕ} {b b' : Bus} {x : ℕ} → Replaced f b x b' → ReplacedOnce f b x b'
Replaced-ReplacedOnce {f} {b} {b'} {x} r = record {
  cell = r.cell;
  once = stores_of_own b'.log (mine x (f x) ∷ b.log) r.once;
}

ReplacedOnce-later :
    {f : ℕ → ℕ} (b c : Bus) {b' : Bus} {x : ℕ}
    → stores c.log ≡ stores b.log
    → ReplacedOnce f c x b'
    → ReplacedOnce f b x b'
ReplacedOnce-later {f} b c {b'} {x} e r = record {
  cell = r.cell;
  once = r.once ∙ ap (λ (l : List Event). mine x (f x) ∷ l) e;
}

module _ (i : Intrinsics) (laws : IsInterlocked i) where
  retry_loop-ReplacedOnce : (f : ℕ → ℕ) (n p : ℕ) → UpdatesOnce f (retry_loop i f n p)
  unfolding retry_loop
  retry_loop-ReplacedOnce f zero p b b' x h = cc
  retry_loop-ReplacedOnce f (suc n) p b b' x h =
      let (q, c, first, rest) =
        >>=-eq-some (i.interlocked_compare_exchange (f p) p)
          (λ q. if q == p then ret q else retry_loop i f n q) b b' x h in
      elim (laws (f p) p b c q first) [
        | inl (same, done) ↦ ground (arith, done, rw ((==_iff q p).1 same) at rest, same)
        | inr (differ, seen, never) ↦ elim (Bool-cases (q == p)) [
          | inl equal ↦ absurd (differ ((==_iff q p).0 equal))
          | inr more ↦
              ReplacedOnce-later b c never (retry_loop-ReplacedOnce f n q c b' x (rw more at rest))
        ]
      ]

  torn_loop-ReplacedOnce :
      (f : ℕ → ℕ) (n : ℕ) → UpdatesOnce f (read_torn >>= λ expected. retry_loop i f n expected)
  torn_loop-ReplacedOnce f n b b' x h =
      let (p, c, read, rest) = >>=-eq-some read_torn (λ p. retry_loop i f n p) b b' x h in
      ReplacedOnce-later b c (stores_of_own c.log b.log (read_torn-own b c p read))
        (retry_loop-ReplacedOnce f n p c b' x rest)

-- With MSVC for a 32-bit processor, and a compare-exchange intrinsic that does what its documentation
-- says: a 64-bit exchange, fetchAdd, fetchAnd or fetchOr that returns has replaced the value that it
-- returns by what the operation makes of it, in one store and no other; whatever the other threads
-- do, and however the plain read before its loop tears.
pub msvc_rmw-ReplacedOnce :
    (i : Intrinsics)
    → IsInterlocked i
    → (dummy n : ℕ) (op : Rmw) (k : ℕ) (b b' : Bus) (x : ℕ)
    → rmw (wide_ops i dummy n) op k b ≡ some (x, b')
    → ReplacedOnce (meaning 64 op k) b x b'
unfolding wide_ops exchange64 fetch_add64 fetch_and64 fetch_or64
msvc_rmw-ReplacedOnce i laws dummy n op_exchange k =
    torn_loop-ReplacedOnce i laws (meaning 64 op_exchange k) n
msvc_rmw-ReplacedOnce i laws dummy n op_add k =
    torn_loop-ReplacedOnce i laws (meaning 64 op_add k) n
msvc_rmw-ReplacedOnce i laws dummy n op_and k =
    torn_loop-ReplacedOnce i laws (meaning 64 op_and k) n
msvc_rmw-ReplacedOnce i laws dummy n op_or k = torn_loop-ReplacedOnce i laws (meaning 64 op_or k) n

-- The 64-bit store is the one of x86.
pub store64-Stores : (dummy n v : ℕ) (i : Intrinsics) → Stores v ((wide_ops i dummy n).store v)
unfolding wide_ops store64
store64-Stores dummy n v i = store_loop-Stores v n dummy

-- With MSVC, over an intrinsic that does what its documentation says, at any width: a
-- compareExchangeWeak that reports success has replaced `e` by `d` and leaves `e` in `*expected`; one
-- that reports failure has stored nothing.
pub msvc_weak-outcome :
    (i : Intrinsics)
    → IsInterlocked i
    → (e d : ℕ) (b b' : Bus) (matched : Bool) (seen : ℕ)
    → (ops i).compare_exchange_weak e d b ≡ some ((matched, seen), b')
    → ((matched ≡ true) × (seen ≡ e) × ReplacedOnce (always d) b e b')
      ⊎ ((matched ≡ false) × (stores b'.log ≡ stores b.log))
unfolding ops compare_exchange_weak
msvc_weak-outcome i laws e d b b' m s h =
    let (p, c, first, last) =
      >>=-eq-some (i.interlocked_compare_exchange d e) (λ p. ret (p == e, if p == e then e else p))
        b b' (m, s) h in
    ground (arith, last, laws d e b c p first)
