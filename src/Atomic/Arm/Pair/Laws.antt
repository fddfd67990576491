-- ===== src/Atomic/Arm/Pair/Laws.antt =====
-- The 64-bit functions of turf/c/impl/atomic_gcc_arm.c, and the 64-bit value of a register pair.
use native.Mathlib.Nat.{mod-eq_of_lt}
use turf.Prelude.{
  ℕ, zero, suc, ◌+◌, ◌*◌, ◌/◌, ◌%◌, ◌^◌, ◌<◌, ◌==◌, ==_iff, ◌&&◌, ◌≡◌, ◌≢◌, some, Option, inl, inr,
  arith, refl, Bool-cases, ◌∙◌, ap₂, sym, if◌then◌else◌, bit_and, bit_or,
}
use turf.Bits.Split.{bit_and_split, bit_or_split}
use turf.Bits.Test.{or-lt, and-lt}
use turf.Atomic.Bus.{Bus, ret, ◌>>=◌, >>=-eq-some, arrive, strex, put, own, own-arrive, Replaced}
use turf.Atomic.Bus.Laws.{Replaced-ext}
use turf.Atomic.Ops.{
  Updates, Outcome, Fetch, of_add, of_and, of_or, fetch, as_rmw, meaning, always, add_word,
  and_word, or_word,
}
use turf.Atomic.Arm.{llsc_loop, compare_exchange}
use turf.Atomic.Arm.Laws.{
  llsc_loop-Replaced, llsc_loop-suc, compare_exchange-suc, compare_exchange-Compares, linked, tried,
}
use turf.Atomic.Arm.Pair.{
  join, words, pair_loop, load64, store64, compare_exchange_words, compare_exchange64, exchange64,
  add_words, and_words, or_words, fetch_add64, fetch_and64, fetch_or64, pair_ops,
}

join-words : (x : ℕ) → join (words x) ≡ x
join-words x = omega arith

pair_loop-suc :
    (f : ℕ × ℕ → ℕ × ℕ) (n : ℕ) (b : Bus)
    → pair_loop f (suc n) b ≡ (
        if (tried b).monitor
        then some (join (words (arrive b).cell), put (join (f (words (arrive b).cell))) (tried b))
        else pair_loop f n (tried b))
unfolding pair_loop
pair_loop-suc f n b = elim (Bool-cases (tried b).monitor) [
  | inl held ↦ rw (held, pair_loop, strex, ◌>>=◌) refl
  | inr lost ↦ rw (lost, pair_loop, strex, ◌>>=◌) refl
]

-- A loop on a pair is the loop on the 64-bit value.
pair_loop-eq :
    (f : ℕ × ℕ → ℕ × ℕ) (n : ℕ) (b : Bus)
    → pair_loop f n b ≡ llsc_loop (λ x. join (f (words x))) n b
pair_loop-eq f zero b = unfold pair_loop llsc_loop in refl
pair_loop-eq f (suc n) b =
    pair_loop-suc f n b
    ∙ ap₂
        (λ (v : ℕ) (r : Option (ℕ × Bus)).
          if (tried b).monitor
          then some (v, put (join (f (words (arrive b).cell))) (tried b))
          else r)
        (join-words (arrive b).cell) (pair_loop-eq f n (tried b))
    ∙ sym (llsc_loop-suc (λ x. join (f (words x))) n b)

pair_loop-Replaced :
    (f : ℕ × ℕ → ℕ × ℕ) (g : ℕ → ℕ)
    → ((x : ℕ) → join (f (words x)) ≡ g x)
    → (n : ℕ) (b b' : Bus) (x : ℕ) → pair_loop f n b ≡ some (x, b')
    → Replaced g b x b'
pair_loop-Replaced f g e n b b' x h =
    Replaced-ext (λ y. join (f (words y))) g b b' x (e x)
      (llsc_loop-Replaced (λ y. join (f (words y))) n b b' x (sym (pair_loop-eq f n b) ∙ h))

-- The carry makes one sum of the two.
add_words_lem : (operand x : ℕ) → join (add_words operand (words x)) ≡ add_word 64 operand x
unfolding add_words
add_words_lem operand x = omega arith

and_words_lem : (operand x : ℕ) → join (and_words operand (words x)) ≡ and_word 64 operand x
unfolding and_words
and_words_lem operand x =
    let high = bit_and (x / 2 ^ 32) (operand / 2 ^ 32) in
    let low = bit_and (x % 2 ^ 32) (operand % 2 ^ 32) in
    let whole : bit_and x operand ≡ high * 2 ^ 32 + low =
      ap₂ bit_and (sym (join-words x)) (sym (join-words operand))
      ∙ bit_and_split 32 (x / 2 ^ 32) (operand / 2 ^ 32) (x % 2 ^ 32) (operand % 2 ^ 32)
          (omega arith) (omega arith) in
    omega (arith, whole, and-lt 32 (x % 2 ^ 32) (operand % 2 ^ 32) (omega arith))

or_words_lem : (operand x : ℕ) → join (or_words operand (words x)) ≡ or_word 64 operand x
unfolding or_words
or_words_lem operand x =
    let high = bit_or (x / 2 ^ 32) (operand / 2 ^ 32) in
    let low = bit_or (x % 2 ^ 32) (operand % 2 ^ 32) in
    let whole : bit_or x operand ≡ high * 2 ^ 32 + low =
      ap₂ bit_or (sym (join-words x)) (sym (join-words operand))
      ∙ bit_or_split 32 (x / 2 ^ 32) (operand / 2 ^ 32) (x % 2 ^ 32) (operand % 2 ^ 32)
          (omega arith) (omega arith) in
    omega (arith, whole, or-lt 32 (x % 2 ^ 32) (operand % 2 ^ 32) (omega arith) (omega arith))

words-eq : (x e : ℕ) → (x % 2 ^ 32 == e % 2 ^ 32 && x / 2 ^ 32 == e / 2 ^ 32) ≡ (x == e)
words-eq x e = ground arith

compare_words-suc :
    (n : ℕ) (e d : ℕ × ℕ) (b : Bus)
    → compare_exchange_words (suc n) e d b ≡ (
        if (words (arrive b).cell).0 == e.0 && (words (arrive b).cell).1 == e.1
        then (if (tried b).monitor
            then some (join (words (arrive b).cell), put (join d) (tried b))
            else compare_exchange_words n e d (tried b))
        else some (join (words (arrive b).cell), linked b))
unfolding compare_exchange_words
compare_words-suc n e d b =
    elim (Bool-cases ((words (arrive b).cell).0 == e.0 && (words (arrive b).cell).1 == e.1)) [
      | inl same ↦ elim (Bool-cases (tried b).monitor) [
        | inl held ↦ rw (same, held, compare_exchange_words, strex, ◌>>=◌) refl
        | inr lost ↦ rw (same, lost, compare_exchange_words, strex, ◌>>=◌) refl
      ]
      | inr other ↦ rw (other, compare_exchange_words, ◌>>=◌) refl
    ]

-- The comparison word by word is the comparison of the values.
compare_words-eq :
    (n e d : ℕ) (b : Bus)
    → d < 2 ^ 64
    → compare_exchange_words n (words e) (words d) b ≡ compare_exchange 64 n e d b
compare_words-eq zero e d b fits = unfold compare_exchange_words compare_exchange in refl
compare_words-eq (suc n) e d b fits =
    compare_words-suc n (words e) (words d) b
    ∙ rw
        (
          words-eq (arrive b).cell e,
          join-words (arrive b).cell,
          join-words d,
          compare_words-eq n e d (tried b) fits,
          compare_exchange-suc 64 n e d b,
          mod-eq_of_lt fits,
        )
        refl

-- A 64-bit compareExchange of ARM, for a `d` below `2 ^ 64`, that returns `e` has stored `d` over
-- it; one that returns another value has stored nothing; whatever the other threads do.
pub pair_compare_exchange-Outcome :
    (n e d : ℕ)
    → d < 2 ^ 64
    → (b b' : Bus) (x : ℕ) → (pair_ops n).compare_exchange e d b ≡ some (x, b')
    → Outcome e d b x b'
unfolding pair_ops compare_exchange64
pair_compare_exchange-Outcome n e d fits b b' x h =
    compare_exchange-Compares 64 n e d fits b b' x (sym (compare_words-eq n e d b fits) ∙ h)

-- The 64-bit exchange of ARM, whatever r3 and the stack hold, does not exchange: on a cell that
-- does not hold `desired` it returns without storing anything, and `desired` is not in the cell.
pub exchange64-keeps :
    (n left_over desired : ℕ) (b : Bus)
    → left_over < 2 ^ 64
    → (arrive b).cell ≢ desired
    → (b' : Bus) × (exchange64 (suc n) left_over desired b ≡ some ((arrive b).cell, b'))
      × (b'.cell ≢ desired)
      × (own b'.log ≡ own b.log)
unfolding exchange64
exchange64-keeps n left_over desired b fits differ = (
  linked b,
  ground (
    arith,
    compare_words-eq (suc n) desired left_over b fits,
    compare_exchange-suc 64 n desired left_over b,
    (==_iff (arrive b).cell desired).0,
  ),
  differ,
  own-arrive b,
)

fetch-Updates :
    (n : ℕ) (op : Fetch) (k : ℕ) → Updates (meaning 64 (as_rmw op) k) (fetch (pair_ops n) op k)
unfolding pair_ops fetch_add64 fetch_and64 fetch_or64
fetch-Updates n of_add k = pair_loop-Replaced (add_words k) (add_word 64 k) (add_words_lem k) n
fetch-Updates n of_and k = pair_loop-Replaced (and_words k) (and_word 64 k) (and_words_lem k) n
fetch-Updates n of_or k = pair_loop-Replaced (or_words k) (or_word 64 k) (or_words_lem k) n

-- A 64-bit fetchAdd, fetchAnd or fetchOr of ARM, on a pair of registers, that returns has replaced the
-- whole value that it returns by what the operation makes of it on 64 bits, in one store and no other;
-- whatever the other threads do, and however often the monitor is lost.
pub pair_fetch-Replaced :
    (n : ℕ) (op : Fetch) (k : ℕ) (b b' : Bus) (x : ℕ)
    → fetch (pair_ops n) op k b ≡ some (x, b')
    → Replaced (meaning 64 (as_rmw op) k) b x b'
pair_fetch-Replaced n op k b b' x h = fetch-Updates n op k b b' x h

-- A 64-bit load of ARM that returns has stored back the value that it returns, and no other.
pub pair_load-Replaced :
    (n : ℕ) (b b' : Bus) (x : ℕ) → load64 n b ≡ some (x, b') → Replaced (λ y. y) b x b'
unfolding load64
pair_load-Replaced n = pair_loop-Replaced (λ r. r) (λ x. x) join-words n

-- A 64-bit store of ARM that returns has stored the whole of `v`, once.
pub pair_store-Replaced :
    (n v : ℕ) (b b' : Bus) → store64 n v b ≡ some (tt, b') → (x : ℕ) × Replaced (always v) b x b'
unfolding store64
pair_store-Replaced n v b b' h =
    let (x, c, first, last) = >>=-eq-some (pair_loop (λ r. words v) n) (λ x. ret tt) b b' tt h in
    let returned : pair_loop (λ r. words v) n b ≡ some (x, b') = ground (arith, first, last) in
    (x, pair_loop-Replaced (λ r. words v) (always v) (λ x. join-words v) n b b' x returned)
