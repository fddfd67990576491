-- ===== src/Atomic/Arm/Thumb/Laws.antt =====
-- The standalone functions of turf/c/impl/atomic_gcc_arm.c for the Thumb mode.
use turf.Bits.Test.{mod-mod_pow}
use turf.Prelude.{ℕ, ◌+◌, ◌%◌, ◌^◌, ◌<◌, ◌≤◌, ◌≡◌, some}
use turf.Atomic.Bus.{Bus, Replaced}
use turf.Atomic.Bus.Laws.{Replaced-ext}
use turf.Atomic.Ops.{
  Fetch, fetch, of_add, of_and, of_or, as_rmw, meaning, Updates, Outcome, add_word, and_word,
  or_word,
}
use turf.Atomic.Arm.Laws.{llsc_loop-Replaced, compare_exchange-Compares}
use turf.Atomic.Arm.Thumb.{fetch_add, fetch_and, fetch_or, thumb}

fetch-Updates :
    (w n : ℕ)
    → w ≤ 32
    → (op : Fetch) (k : ℕ) → Updates (meaning w (as_rmw op) k) (fetch (thumb w n) op k)
unfolding thumb fetch_add fetch_and fetch_or
fetch-Updates w n narrow of_add k b b' x h =
    Replaced-ext (λ y. (y + k) % 2 ^ 32 % 2 ^ w) (add_word w k) b b' x
      (mod-mod_pow w 32 (x + k) narrow)
      (llsc_loop-Replaced (λ y. (y + k) % 2 ^ 32 % 2 ^ w) n b b' x h)
fetch-Updates w n narrow of_and k b b' x h = llsc_loop-Replaced (and_word w k) n b b' x h
fetch-Updates w n narrow of_or k b b' x h = llsc_loop-Replaced (or_word w k) n b b' x h

-- In Thumb mode a fetchAdd, fetchAnd or fetchOr on `w` bits, at most 32, that returns has replaced the
-- value that it returns by what the operation makes of it, in one store and no other; whatever the
-- other threads do, and however often the monitor is lost.
pub thumb-fetch-Replaced :
    (w n : ℕ)
    → w ≤ 32
    → (op : Fetch) (k : ℕ) (b b' : Bus) (x : ℕ) → fetch (thumb w n) op k b ≡ some (x, b')
    → Replaced (meaning w (as_rmw op) k) b x b'
thumb-fetch-Replaced w n narrow op k b b' x h = fetch-Updates w n narrow op k b b' x h

-- In Thumb mode a compareExchange on `w` bits that returns `e` has stored `d` over it; one that returns
-- another value has stored nothing.
pub thumb_compare_exchange-Outcome :
    (w n e d : ℕ)
    → d < 2 ^ w
    → (b b' : Bus) (x : ℕ) → (thumb w n).compare_exchange e d b ≡ some (x, b')
    → Outcome e d b x b'
unfolding thumb
thumb_compare_exchange-Outcome w n e d fits b b' x h =
    compare_exchange-Compares w n e d fits b b' x h
