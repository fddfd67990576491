-- ===== src/Atomic/Ordered/Native/Laws.antt =====
-- The classes over a platform of which the relaxed operations are atomic.
use native.Mathlib.Nat.{mod-add-mod, mod-lt, one-le-pow}
use turf.Prelude.{
  ℕ, ◌+◌, ◌-◌, ◌%◌, ◌^◌, ◌<◌, ◌==◌, ◌||◌, if◌then◌else◌, Bool, true, false, some, ◌∷◌, ◌≡◌, refl,
  sym, ap, ap₂, ◌∙◌, arith,
}
use mathlib.Core.Path.{subst}
use turf.Atomic.Bus.{Bus, mine, M, ret, ◌>>=◌, own, >>=-eq-some}
use turf.Atomic.Ops.{Relaxed, IsAtomic, always, op_exchange, op_add}
use turf.Atomic.Ordered.{Order, is_acquire, is_release, ordered, Ordered}
use turf.Atomic.Ordered.Laws.{
  if_acquire, if_release, swap_event, ReplacedFenced, ordered_rmw-ReplacedFenced,
  ordered_compare_exchange-events, ordered_weak-events,
}
use turf.Atomic.Ordered.Native.{
  word, truth, strong_bool, weak_bool, exchange_bool, native_bool, strong_ptr, native_ptr,
  fetch_sub,
}

word-lt : (v : Bool) → word v < 2 ^ 8
word-lt true = omega arith
word-lt false = omega arith

truth-word : (v : Bool) → truth (word v) ≡ v
truth-word true = refl
truth-word false = refl

kept_or_seen :
    {A : Type 0} (matched : Bool) (e x : A)
    → (if matched then (if matched then e else x) else e) ≡ e
kept_or_seen true e x = refl
kept_or_seen false e x = refl

-- The two classes: `enc` is the conversion to a word, `dec` the one back.
module _ (A : Type 0) (enc : A → ℕ) (dec : ℕ → A) (back : (v : A) → dec (enc v) ≡ v) where
  abbrev strong : Ordered → A → A → Order → M (Bool × A)
  strong o expected desired order = o.compare_exchange (enc expected) (enc desired) order >>= λ v.
      ret (v == enc expected, if v == enc expected then expected else dec v)

  held :
      (matched : Bool) (e d : A) (x : ℕ)
      → dec (if matched then enc d else x) ≡ (if matched then d else (if matched then e else dec x))
  held true e d x = back d
  held false e d x = refl

  strong-events :
      (w : ℕ) (ops : Relaxed) (laws : IsAtomic w ops) (order : Order) (e d : A)
      (fits_e : enc e < 2 ^ w) (fits_d : enc d < 2 ^ w) (b b' : Bus) (result : Bool) (seen : A)
      (h : strong (ordered ops) e d order b ≡ some ((result, seen), b'))
      → (dec b'.cell ≡ (if result then d else seen))
        × ((if result then seen else e) ≡ e)
        × (own b'.log
            ≡ if_acquire
                (is_acquire order)
                (swap_event result (enc e) (enc d) (if_release (is_release order) (own b.log))))
  strong-events w ops laws order e d fits_e fits_d b b' result seen h =
      let m = (ordered ops).compare_exchange (enc e) (enc d) order in
      let answer : ℕ → Bool × A = λ v. (v == enc e, if v == enc e then e else dec v) in
      let (x, c, first, last) = >>=-eq-some m (λ v. ret (answer v)) b b' (result, seen) h in
      let (cell, log) =
        ordered_compare_exchange-events w ops laws order (enc e) (enc d) fits_e fits_d b c x
          first in
      let matched : (x == enc e) ≡ result = cc in
      let left : (if x == enc e then e else dec x) ≡ seen = cc in
      let same : c ≡ b' = cc in
      (
        ap (λ (u : Bus). dec u.cell) (sym same)
            ∙ ap dec cell
            ∙ held (x == enc e) e d x
            ∙ ap₂ (λ (r : Bool) (s : A). if r then d else s) matched left,
        sym (ap₂ (λ (r : Bool) (s : A). if r then s else e) matched left)
            ∙ kept_or_seen (x == enc e) e (dec x),
        ap (λ (u : Bus). own u.log) (sym same)
            ∙ log
            ∙ ap
                (λ (r : Bool).
                  if_acquire (is_acquire order)
                    (swap_event r (enc e) (enc d) (if_release (is_release order) (own b.log))))
                matched,
      )

-- Over a platform whose 8-bit operations are atomic, a compareExchangeStrong of `e` and `d` on an
-- Atomic_Native<bool>, with any memory order, that returns `result` and leaves `seen` in `expected`:
-- the cell holds `d` if it returns true and what `expected` holds then if it returns false; `expected`
-- is kept if it returns true; and its events are the fences that the order asks for and, between them
-- if it returns true, the store of `d` over `e`.
pub strong_bool-events :
    (ops : Relaxed) (laws : IsAtomic 8 ops) (order : Order) (e d : Bool) (b b' : Bus)
    (result seen : Bool)
    (h : (native_bool (ordered ops)).compare_exchange_strong e d order b
      ≡ some ((result, seen), b'))
    → (truth b'.cell ≡ (if result then d else seen))
      × ((if result then seen else e) ≡ e)
      × (own b'.log
          ≡ if_acquire
              (is_acquire order)
              (swap_event result (word e) (word d) (if_release (is_release order) (own b.log))))
unfolding native_bool strong_bool
strong_bool-events ops laws order e d b b' result seen h =
    strong-events Bool word truth truth-word 8 ops laws order e d (word-lt e) (word-lt d) b b'
      result seen h

-- Over a platform whose operations are atomic at the width of a pointer, a compareExchangeStrong of the
-- addresses `e` and `d` on an Atomic_Native<T*>, with any memory order, that returns `result` and
-- leaves `seen` in `expected`: the cell holds `d` if it returns true and what `expected` holds then if it
-- returns false; `expected` is kept if it returns true; and its events are the fences that the order
-- asks for and, between them if it returns true, the store of `d` over `e`.
pub strong_ptr-events :
    (w : ℕ) (ops : Relaxed) (laws : IsAtomic w ops) (order : Order) (e d : ℕ) (fits_e : e < 2 ^ w)
    (fits_d : d < 2 ^ w) (b b' : Bus) (result : Bool) (seen : ℕ)
    (h : (native_ptr (ordered ops)).compare_exchange_strong e d order b ≡ some ((result, seen), b'))
    → (b'.cell ≡ (if result then d else seen))
      × ((if result then seen else e) ≡ e)
      × (own b'.log
          ≡ if_acquire
              (is_acquire order)
              (swap_event result e d (if_release (is_release order) (own b.log))))
unfolding native_ptr strong_ptr
strong_ptr-events w ops laws order e d fits_e fits_d b b' result seen h =
    strong-events ℕ (λ v. v) (λ v. v) (λ v. refl) w ops laws order e d fits_e fits_d b b' result
      seen h

-- Over a platform whose 8-bit operations are atomic, an exchange on an Atomic_Native<bool>, with any
-- memory order, that returns has replaced a value of which it returns the truth by `d`, in one store
-- within the fences that the order asks for.
pub exchange_bool-ReplacedFenced :
    (ops : Relaxed) (laws : IsAtomic 8 ops) (order : Order) (d : Bool) (b b' : Bus) (old : Bool)
    (h : (native_bool (ordered ops)).exchange d order b ≡ some (old, b'))
    → (x : ℕ) × (truth x ≡ old) × ReplacedFenced (always (word d)) order b x b'
unfolding native_bool exchange_bool
exchange_bool-ReplacedFenced ops laws order d b b' old h =
    let m = (ordered ops).exchange (word d) order in
    let (x, c, first, last) = >>=-eq-some m (λ v. ret (truth v)) b b' old h in
    let left : truth x ≡ old = cc in
    let same : c ≡ b' = cc in
    (
      x,
      left,
      subst (λ u. ReplacedFenced (always (word d)) order b x u) same
          (ordered_rmw-ReplacedFenced 8 ops laws op_exchange order (word d) (word-lt d) b c x
            first),
    )

-- Over a platform whose 8-bit operations are atomic, a compareExchangeWeak of `e` and the byte `d` on
-- an Atomic_Native<bool>, with any two memory orders, that returns `result` keeps `expected` if it
-- returns true; its events are a release fence if one of the orders is a release, the store of `d` over
-- `e` if it returns true, and an acquire fence if the order of that outcome is an acquire.
pub weak_bool-events :
    (ops : Relaxed) (laws : IsAtomic 8 ops) (success failure : Order) (e : Bool) (d : ℕ)
    (fits : d < 2 ^ 8) (b b' : Bus) (result seen : Bool)
    (h : weak_bool (ordered ops) e d success failure b ≡ some ((result, seen), b'))
    → ((if result then seen else e) ≡ e)
      × (own b'.log
          ≡ if_acquire (is_acquire (if result then success else failure)) (
              swap_event result
                (word e)
                d
                (if_release (is_release success || is_release failure) (own b.log))))
unfolding weak_bool
weak_bool-events ops laws success failure e d fits b b' result seen h =
    let m = (ordered ops).compare_exchange_weak (word e) d success failure in
    let answer : Bool × ℕ → Bool × Bool = λ r. (r.0, if r.0 then e else truth r.1) in
    let (y, c, first, last) = >>=-eq-some m (λ r. ret (answer r)) b b' (result, seen) h in
    let matched : y.0 ≡ result = cc in
    let left : (if y.0 then e else truth y.1) ≡ seen = cc in
    let same : c ≡ b' = cc in
    let log =
      ordered_weak-events 8 ops laws success failure (word e) d (word-lt e) fits b c y.0 y.1
        first in
    (
      sym (ap₂ (λ (r : Bool) (s : Bool). if r then s else e) matched left)
          ∙ kept_or_seen y.0 e (truth y.1),
      ap (λ (u : Bus). own u.log) (sym same)
          ∙ log
          ∙ ap
              (λ (r : Bool). if_acquire (is_acquire (if r then success else failure)) (
                swap_event r (word e) d
                  (if_release (is_release success || is_release failure) (own b.log))))
              matched,
    )

-- Over a platform whose operations are atomic at width `w`, a fetchSub of `k` of that width, with any
-- memory order, that returns `x` has replaced `x` by `x - k` modulo 2 ^ w in one store, within the
-- fences that the order asks for.
pub fetch_sub-ReplacedFenced :
    (w : ℕ) (ops : Relaxed) (laws : IsAtomic w ops) (order : Order) (k : ℕ) (fits : k < 2 ^ w)
    (b b' : Bus) (x : ℕ) (h : fetch_sub w (ordered ops) k order b ≡ some (x, b'))
    → ReplacedFenced (λ y. (y + (2 ^ w - k)) % 2 ^ w) order b x b'
unfolding fetch_sub
fetch_sub-ReplacedFenced w ops laws order k fits b b' x h =
    let operand = (2 ^ w - k) % 2 ^ w in
    let one = one-le-pow w 2 (omega arith) in
    let done =
      ordered_rmw-ReplacedFenced w ops laws op_add order operand (mod-lt (2 ^ w - k) one) b b' x
        h in
    let e : (x + operand) % 2 ^ w ≡ (x + (2 ^ w - k)) % 2 ^ w =
      ap (λ (t : ℕ). t % 2 ^ w) (omega arith)
      ∙ mod-add-mod (2 ^ w - k) (2 ^ w) x
      ∙ ap (λ (t : ℕ). t % 2 ^ w) (omega arith) in
    record {
      cell = done.cell ∙ e;
      events =
          done.events
          ∙ ap
              (λ (v : ℕ).
                if_acquire (is_acquire order)
                  (mine x v ∷ if_release (is_release order) (own b.log)))
              e;
    }
