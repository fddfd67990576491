-- ===== src/Atomic/Ordered/Laws.antt =====
-- The stores and fences of the operations of turf/c/atomic.h.
use turf.Prelude.{
  ℕ, ◌<◌, ◌^◌, Bool, true, false, ◌≡◌, ◌∙◌, ap, ap₂, sym, some, arith, refl, List, ◌∷◌,
  if◌then◌else◌, inl, inr, ◌||◌, ◌==◌, ==_iff,
}
use turf.Atomic.Bus.{
  Event, mine, acquire_fence, release_fence, Bus, M, ret, fence, own, ◌>>=◌, ◌>>◌, >>=-eq-some,
}
use turf.Atomic.Ops.{
  Relaxed, IsAtomic, IsAtomic-rmw, Updates, Rmw, op_exchange, op_add, op_and, op_or, rmw, meaning,
}
use turf.Atomic.Ordered.{
  Order, is_acquire, is_release, fenced, fenced_weak, ordered, rmw_ordered, release_if, acquire_if,
}

-- The events that the orders ask for, in reverse order as in a log.
abbrev pub if_acquire : Bool → List Event → List Event
if_acquire o l = if o then acquire_fence ∷ l else l

abbrev pub if_release : Bool → List Event → List Event
if_release o l = if o then release_fence ∷ l else l

-- `x` was replaced by `f x` in one store, with a release fence before it and an acquire fence after
-- it as the order asks, and with no other store or fence of this thread.
pub record ReplacedFenced (f : ℕ → ℕ) (order : Order) (b : Bus) (x : ℕ) (b' : Bus) : Type 0 where
  pub cell : b'.cell ≡ f x
  pub events :
      own b'.log
      ≡ if_acquire (is_acquire order) (mine x (f x) ∷ if_release (is_release order) (own b.log))

-- The bus after a fence that is asked for.
abbrev released : Bool → Bus → Bus
released o b = record b { log = if_release o b.log }

release_if-eq :
    {A : Type 0} (o : Bool) (k : M A) (b : Bus) → (release_if o >> k) b ≡ k (released o b)
unfolding fence
release_if-eq true k b = refl
release_if-eq false k b = refl

own-released : (o : Bool) (b : Bus) → own (released o b).log ≡ if_release o (own b.log)
own-released true b = refl
own-released false b = refl

acquire_if-eq :
    {A : Type 0} (o : Bool) (y x : A) (c b' : Bus)
    → (acquire_if o >> ret y) c ≡ some (x, b')
    → (y ≡ x) × (b'.cell ≡ c.cell) × (own b'.log ≡ if_acquire o (own c.log))
unfolding fence
acquire_if-eq true y x c b' h = ground (arith, h)
acquire_if-eq false y x c b' h = ground (arith, h)

fenced-Replaced :
    (f : ℕ → ℕ) (m : M ℕ) (order : Order)
    → Updates f m
    → (b b' : Bus) (x : ℕ) → fenced m order b ≡ some (x, b')
    → ReplacedFenced f order b x b'
unfolding fenced
fenced-Replaced f m order u b b' x h =
    let start = released (is_release order) b in
    let rest =
      sym (release_if-eq (is_release order) (do r ← m; acquire_if (is_acquire order); ret r) b)
      ∙ h in
    let (y, c, first, last) =
      >>=-eq-some m (λ r. acquire_if (is_acquire order) >> ret r) start b' x rest in
    let (same, kept, fences) = acquire_if-eq (is_acquire order) y x c b' last in
    let done = u start c y first in
    record {
      cell = kept ∙ done.cell ∙ ap f same;
      events =
          fences
          ∙ ap (if_acquire (is_acquire order)) (
              done.once
              ∙ ap₂ (λ (v : ℕ) (l : List Event). mine v (f v) ∷ l) same
                  (own-released (is_release order) b));
    }

rmw_ordered-fenced :
    (ops : Relaxed) (op : Rmw) (k : ℕ) (order : Order)
    → rmw_ordered (ordered ops) op k order ≡ fenced (rmw ops op k) order
unfolding ordered
rmw_ordered-fenced ops op_exchange k order = refl
rmw_ordered-fenced ops op_add k order = refl
rmw_ordered-fenced ops op_and k order = refl
rmw_ordered-fenced ops op_or k order = refl

-- If the relaxed operation replaces what it returns by `f` of it in one store, the one with an order
-- does so within the fences that the order asks for.
pub updates-ReplacedFenced :
    (f : ℕ → ℕ) (ops : Relaxed) (op : Rmw) (order : Order) (k : ℕ)
    → Updates f (rmw ops op k)
    → (b b' : Bus) (x : ℕ) → rmw_ordered (ordered ops) op k order b ≡ some (x, b')
    → ReplacedFenced f order b x b'
updates-ReplacedFenced f ops op order k updates b b' x h =
    fenced-Replaced f (rmw ops op k) order updates b b' x
      (rw (sym (rmw_ordered-fenced ops op k order)) h)

-- Over a platform whose relaxed operations are atomic at width `w`, an exchange, fetchAdd,
-- fetchAnd or fetchOr with any memory order, on an operand of that width, that returns has
-- replaced what it returns in one store, after a release fence if the order is release or acq_rel,
-- and before an acquire fence if the order is acquire or acq_rel; this thread has made no other
-- store and no other fence.
pub ordered_rmw-ReplacedFenced :
    (w : ℕ) (ops : Relaxed)
    → IsAtomic w ops
    → (op : Rmw) (order : Order) (k : ℕ) → k < 2 ^ w
    → (b b' : Bus) (x : ℕ) → rmw_ordered (ordered ops) op k order b ≡ some (x, b')
    → ReplacedFenced (meaning w op k) order b x b'
ordered_rmw-ReplacedFenced w ops laws op order k fits b b' x h =
    updates-ReplacedFenced (meaning w op k) ops op order k (IsAtomic-rmw w ops laws op k fits) b b'
      x h

-- What a compare-exchange that returned `x` has done to the log: the store if `x` was expected, within
-- the fences that the order asks for.
abbrev pub swap_event : Bool → ℕ → ℕ → List Event → List Event
swap_event matched expected desired l = if matched then mine expected desired ∷ l else l

fenced-chain :
    (m : M ℕ) (order : Order) (b b' : Bus) (x : ℕ)
    → fenced m order b ≡ some (x, b')
    → (c : Bus) × (m (released (is_release order) b) ≡ some (x, c))
      × (b'.cell ≡ c.cell)
      × (own b'.log ≡ if_acquire (is_acquire order) (own c.log))
unfolding fenced
fenced-chain m order b b' x h =
    let start = released (is_release order) b in
    let rest =
      sym (release_if-eq (is_release order) (do r ← m; acquire_if (is_acquire order); ret r) b)
      ∙ h in
    let (y, c, first, last) =
      >>=-eq-some m (λ r. acquire_if (is_acquire order) >> ret r) start b' x rest in
    let (same, kept, fences) = acquire_if-eq (is_acquire order) y x c b' last in
    (c, first ∙ ap (λ v. some (v, c)) same, kept, fences)

-- Over a platform whose relaxed operations are atomic at width `w`, a compareExchange of `e` and
-- `d` of that width, with any memory order, that returns `x` leaves `d` in the cell if `x` is `e`
-- and `x` if not; its events are a release fence if the order asks for it, the store of `d` over
-- `e` if `x` is `e`, and an acquire fence if the order asks for it, in this order.
pub ordered_compare_exchange-events :
    (w : ℕ) (ops : Relaxed)
    → IsAtomic w ops
    → (order : Order) (e d : ℕ) → e < 2 ^ w
    → d < 2 ^ w
    → (b b' : Bus) (x : ℕ) → (ordered ops).compare_exchange e d order b ≡ some (x, b')
    → (b'.cell ≡ (if x == e then d else x))
      × (own b'.log
          ≡ if_acquire
              (is_acquire order)
              (swap_event (x == e) e d (if_release (is_release order) (own b.log))))
unfolding ordered
ordered_compare_exchange-events w ops laws order e d he hd b b' x h =
    let (c, first, kept, fences) = fenced-chain (ops.compare_exchange e d) order b b' x h in
    let outcome = laws.compare_exchange e d he hd (released (is_release order) b) c x first in
    let start = own-released (is_release order) b in
    elim outcome [
      | inl (same, done) ↦ (
        ground (arith, kept, same, done.cell),
        fences
            ∙ ap (if_acquire (is_acquire order))
                (done.once ∙ rw (same, (==_iff e e).1 refl, start) refl),
      )
      | inr (differ, seen) ↦
          let apart : (x == e) ≡ false = ground (arith, differ) in
          (
            kept ∙ seen.cell ∙ rw (apart) refl,
            fences ∙ ap (if_acquire (is_acquire order)) (seen.never ∙ rw (apart, start) refl),
          )
    ]

choose :
    (matched : Bool) (success failure : Order)
    → (if matched then is_acquire success else is_acquire failure)
      ≡ is_acquire (if matched then success else failure)
choose true success failure = refl
choose false success failure = refl

-- Over a platform whose relaxed operations are atomic at width `w`, a compareExchangeWeak of `e`
-- and `d` of that width that returns has fenced before its access if one of its two orders is a
-- release, and after it if the order of success, or of failure, is an acquire; it has stored `d`
-- over `e` between them if it reports success, and nothing if it reports failure.
pub ordered_weak-events :
    (w : ℕ) (ops : Relaxed)
    → IsAtomic w ops
    → (success failure : Order) (e d : ℕ) → e < 2 ^ w
    → d < 2 ^ w
    → (b b' : Bus) (matched : Bool) (seen : ℕ)
    → (ordered ops).compare_exchange_weak e d success failure b ≡ some ((matched, seen), b')
    → own b'.log
      ≡ if_acquire (is_acquire (if matched then success else failure)) (
          swap_event matched e d
            (if_release (is_release success || is_release failure) (own b.log)))
unfolding ordered fenced_weak
ordered_weak-events w ops laws success failure e d he hd b b' matched seen h =
    let o = is_release success || is_release failure in
    let m = ops.compare_exchange_weak e d in
    let after : Bool × ℕ → Bool = λ r. if r.0 then is_acquire success else is_acquire failure in
    let rest = sym (release_if-eq o (do r ← m; acquire_if (after r); ret r) b) ∙ h in
    let (y, c, first, last) =
      >>=-eq-some m (λ r. acquire_if (after r) >> ret r) (released o b) b' (matched, seen) rest in
    let (same, kept, fences) = acquire_if-eq (after y) y (matched, seen) c b' last in
    let returned = first ∙ ap (λ v. some (v, c)) same in
    let start = own-released o b in
    let stored : own c.log ≡ swap_event matched e d (if_release o (own b.log)) =
      elim (laws.compare_exchange_weak e d he hd (released o b) c matched seen returned) [
        | inl (ok, found, done) ↦ done.once ∙ rw (ok, start) refl
        | inr (failed, never) ↦ never ∙ rw (failed, start) refl
      ] in
    let asked : after y ≡ is_acquire (if matched then success else failure) =
      ap after same ∙ choose matched success failure in
    fences ∙ ap₂ if_acquire asked stored
