-- ===== src/Random/Seeded.antt =====
-- The state of the generator is never zero.
use turf.Prelude.{
  ℕ, zero, suc, ◌+◌, ◌*◌, ◌/◌, ◌%◌, ◌^◌, ◌<◌, ◌≤◌, bit_or, ◌≡◌, ◌≢◌, refl, sym, ap, ◌∙◌, arith,
}
use turf.Bits.Digits.{bit_or_step}
use turf.Bits.Test.{or-lt}
use turf.Bits.Xor.{xor-lt}
use turf.Util.Hash.{avalanche64}
use turf.Util.Hash.Laws.{avalanche64-lt, avalanche_nonzero}
use turf.Random.{Random, mixed, step, next64, next_times, make}
use turf.Random.Injective.{next64_distinct}

abbrev pub zero_state : Random
zero_state = record { s0 = 0; s1 = 0 }

-- Two words that are not both 0.
pub record IsSeeded (r : Random) : Type 0 where
  pub fits_s0 : r.s0 < 2 ^ 64
  pub fits_s1 : r.s1 < 2 ^ 64
  pub nonzero : r ≢ zero_state

zero_stays : (next64 zero_state).1 ≡ zero_state
unfolding next64 step
zero_stays = refl

step-lt : (r : Random) (s : IsSeeded r) → ((next64 r).1.s0 < 2 ^ 64) × ((next64 r).1.s1 < 2 ^ 64)
unfolding next64 step
step-lt r s =
    let v = mixed r.s0 in
    let word : v < 2 ^ 64 = xor-lt 64 r.s0 (r.s0 * 2 ^ 23 % 2 ^ 64) s.fits_s0 (omega arith) in
    (
      s.fits_s1,
      xor-lt 64 _ (r.s1 / 2 ^ 26)
          (xor-lt 64 _ (v / 2 ^ 17) (xor-lt 64 v r.s1 word s.fits_s1) (omega (arith, word)))
          (omega (arith, s.fits_s1)),
    )

-- After `next64` on two words that are not both 0, the state is two words that are not both 0.
pub next64-IsSeeded : (r : Random) (s : IsSeeded r) → IsSeeded (next64 r).1
next64-IsSeeded r s =
    let (first, second) = step-lt r s in
    record {
      fits_s0 = first;
      fits_s1 = second;
      nonzero = λ e.
          s.nonzero (next64_distinct r zero_state s.fits_s0 (omega arith) (e ∙ sym zero_stays));
    }

next_times-IsSeeded : (n : ℕ) (r : Random) (s : IsSeeded r) → IsSeeded (next_times n r)
next_times-IsSeeded zero r s = s
next_times-IsSeeded (suc n) r s = next_times-IsSeeded n (next64 r).1 (next64-IsSeeded r s)

or_one : (t : ℕ) → 1 ≤ bit_or t 1
or_one t = omega (arith, bit_or_step t 1)

-- The constructor leaves two words that are not both 0, whatever the time, the timer and the thread are.
pub make-IsSeeded : (time timer thread : ℕ) → IsSeeded (make time timer thread)
unfolding make
make-IsSeeded time timer thread =
    let t = bit_or (avalanche64 time) 1 in
    let u = bit_or ((avalanche64 timer + thread) % 2 ^ 64) 1 in
    let first : Random = record { s0 = avalanche64 t; s1 = avalanche64 u } in
    next_times-IsSeeded 10 first (record {
      fits_s0 = avalanche64-lt t;
      fits_s1 = avalanche64-lt u;
      nonzero = λ e.
          avalanche_nonzero t (or-lt 64 (avalanche64 time) 1 (avalanche64-lt time) (omega arith))
            (or_one (avalanche64 time)) (ap (λ (r : Random). r.s0) e);
    })
