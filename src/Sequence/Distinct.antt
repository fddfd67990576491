-- ===== src/Sequence/Distinct.antt =====
-- turf/extra/UniqueSequence.h: the words that successive calls of `next` return.

use turf.Prelude.{ℕ, zero, suc, ◌+◌, ◌%◌, ◌^◌, ◌<◌, bit_xor, ◌≡◌, ◌≢◌, sym, ap, ◌∙◌, arith}
use turf.Bits.Xor.{xor_cancel_right, xor-lt}
use turf.Sequence.{UniqueSequence, permute, next}
use turf.Sequence.Permute.{permute_injective, permute_word}

-- The state after `n` calls, and what the call after them returns.
pub after : ℕ → UniqueSequence → UniqueSequence
after zero s = s
after (suc n) s = (next (after n s)).1

pub output : ℕ → UniqueSequence → ℕ
unfolding after
output n s = (next (after n s)).0

after-eq :
    (n : ℕ) (s : UniqueSequence)
    → s.cur_index < 2 ^ 32
    → after n s ≡ record s { cur_index = (s.cur_index + n) % 2 ^ 32 }
unfolding after next
after-eq zero s h = ap (λ (i : ℕ). record s { cur_index = i }) (omega arith)
after-eq (suc n) s h =
    ap (λ (t : UniqueSequence). (next t).1) (after-eq n s h)
    ∙ ap (λ (i : ℕ). record s { cur_index = i }) (omega arith)

output-eq :
    (n : ℕ) (s : UniqueSequence)
    → s.cur_index < 2 ^ 32
    → output n s
      ≡ permute (bit_xor ((permute ((s.cur_index + n) % 2 ^ 32) + s.param0) % 2 ^ 32) s.param1)
unfolding output next
output-eq n s h = ap (λ (t : UniqueSequence). (next t).0) (after-eq n s h)

-- Whatever its parameters, which are 32-bit words, `2 ^ 32` successive calls of `next` return words
-- of which no two are the same.
pub next_unique :
    (s : UniqueSequence)
    → s.cur_index < 2 ^ 32
    → s.param0 < 2 ^ 32
    → s.param1 < 2 ^ 32
    → (i j : ℕ) → i < 2 ^ 32
    → j < 2 ^ 32
    → i ≢ j
    → output i s ≢ output j s
next_unique s hc h0 h1 i j hi hj differ e =
    let u = (s.cur_index + i) % 2 ^ 32 in
    let v = (s.cur_index + j) % 2 ^ 32 in
    let a = (permute u + s.param0) % 2 ^ 32 in
    let b = (permute v + s.param0) % 2 ^ 32 in
    let mixed : bit_xor a s.param1 ≡ bit_xor b s.param1 =
      permute_injective (bit_xor a s.param1) (bit_xor b s.param1)
        (xor-lt 32 a s.param1 (omega arith) h1) (xor-lt 32 b s.param1 (omega arith) h1)
        (sym (output-eq i s hc) ∙ e ∙ output-eq j s hc) in
    let sums : a ≡ b = xor_cancel_right a b s.param1 mixed in
    let same : u ≡ v =
      permute_injective u v (omega arith) (omega arith)
        (omega (arith, sums, permute_word u (omega arith), permute_word v (omega arith))) in
    differ (omega (arith, same))
