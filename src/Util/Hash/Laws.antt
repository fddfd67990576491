-- ===== src/Util/Hash/Laws.antt =====
-- The finalisers of turf/Util.h, step by step.
use turf.Prelude.{refl, ℕ, ◌*◌, ◌/◌, ◌%◌, ◌^◌, ◌<◌, bit_xor, ◌≡◌, ap, ◌∙◌, arith, ◌≢◌, ◌≤◌, sym}
use turf.Bits.Xor.{xor_cancel, xor-zero, xor_comm, xor_assoc, xor-shr, xor-lt}
use turf.Util.Hash.{
  xor_shift, xor_shift_back, avalanche32, deavalanche32, avalanche64, deavalanche64,
}

-- A common middle part drops out.
pub xor_telescope : (a b c : ℕ) → bit_xor (bit_xor a b) (bit_xor b c) ≡ bit_xor a c
xor_telescope a b c =
    xor_assoc a b (bit_xor b c)
    ∙ ap (λ (t : ℕ). bit_xor a t)
        (xor_comm b (bit_xor b c) ∙ ap (λ (t : ℕ). bit_xor t b) (xor_comm b c) ∙ xor_cancel c b)

-- Where two shifts empty the word, the step undoes itself.
xor_shift_twice : (k h : ℕ) → h / 2 ^ k / 2 ^ k ≡ 0 → xor_shift k (xor_shift k h) ≡ h
unfolding xor_shift
xor_shift_twice k h empty = rw (xor-shr k h (h / 2 ^ k), empty, xor-zero) (xor_cancel h (h / 2 ^ k))

xor_shift_thrice : (h : ℕ) → h < 2 ^ 32 → xor_shift_back (xor_shift 13 h) ≡ h
unfolding xor_shift xor_shift_back
xor_shift_thrice h small =
    let empty : h / 2 ^ 13 / 2 ^ 13 / 2 ^ 13 ≡ 0 = omega arith in
    rw
      (
        xor-shr 13 h (h / 2 ^ 13),
        xor_telescope h (h / 2 ^ 13) (h / 2 ^ 13 / 2 ^ 13),
        xor-shr 13 h (h / 2 ^ 13 / 2 ^ 13),
        empty,
        xor-zero,
      )
      (xor_cancel h (h / 2 ^ 13))

xor_shift-xor_shift_back : (h : ℕ) → h < 2 ^ 32 → xor_shift 13 (xor_shift_back h) ≡ h
unfolding xor_shift xor_shift_back
xor_shift-xor_shift_back h small =
    let empty : h / 2 ^ 13 / 2 ^ 13 / 2 ^ 13 ≡ 0 = omega arith in
    rw
      (
        xor-shr 13 h (h / 2 ^ 13),
        xor-shr 13 h (bit_xor (h / 2 ^ 13) (h / 2 ^ 13 / 2 ^ 13)),
        xor-shr 13 (h / 2 ^ 13) (h / 2 ^ 13 / 2 ^ 13),
        empty,
        xor-zero,
      )
      (xor_cancel h (bit_xor (h / 2 ^ 13) (h / 2 ^ 13 / 2 ^ 13)))

xor_shift-lt32 : (k h : ℕ) → h < 2 ^ 32 → xor_shift k h < 2 ^ 32
unfolding xor_shift
xor_shift-lt32 k h small = xor-lt 32 h (h / 2 ^ k) small (omega arith)

xor_shift_back-lt : (h : ℕ) → h < 2 ^ 32 → xor_shift_back h < 2 ^ 32
unfolding xor_shift_back
xor_shift_back-lt h small =
    xor-lt 32 h _ small (omega (arith, xor-lt 32 h (h / 2 ^ 13) small (omega arith)))

xor_shift-lt64 : (k h : ℕ) → h < 2 ^ 64 → xor_shift k h < 2 ^ 64
unfolding xor_shift
xor_shift-lt64 k h small = xor-lt 64 h (h / 2 ^ k) small (omega arith)

avalanche32_undone : (h : ℕ) → h < 2 ^ 32 → deavalanche32 (avalanche32 h) ≡ h
unfolding avalanche32 deavalanche32
avalanche32_undone h small =
    let h1 = xor_shift 16 h in
    let h2 = h1 * 0x85ebca6b % 2 ^ 32 in
    let h3 = xor_shift 13 h2 in
    let h4 = h3 * 0xc2b2ae35 % 2 ^ 32 in
    let l1 : h1 < 2 ^ 32 = xor_shift-lt32 16 h small in
    let l3 : h3 < 2 ^ 32 = xor_shift-lt32 13 h2 (omega arith) in
    let m4 : h4 * 0x7ed1b41d % 2 ^ 32 ≡ h3 = omega arith in
    let m2 : h2 * 0xa5cb9243 % 2 ^ 32 ≡ h1 = omega arith in
    rw (xor_shift_twice 16 h4 (omega arith), m4, xor_shift_thrice h2 (omega arith), m2)
      (xor_shift_twice 16 h (omega arith))

deavalanche32_undone : (h : ℕ) → h < 2 ^ 32 → avalanche32 (deavalanche32 h) ≡ h
unfolding avalanche32 deavalanche32
deavalanche32_undone h small =
    let h1 = xor_shift 16 h in
    let h2 = h1 * 0x7ed1b41d % 2 ^ 32 in
    let h3 = xor_shift_back h2 in
    let h4 = h3 * 0xa5cb9243 % 2 ^ 32 in
    let l1 : h1 < 2 ^ 32 = xor_shift-lt32 16 h small in
    let l3 : h3 < 2 ^ 32 = xor_shift_back-lt h2 (omega arith) in
    let m4 : h4 * 0x85ebca6b % 2 ^ 32 ≡ h3 = omega arith in
    let m2 : h2 * 0xc2b2ae35 % 2 ^ 32 ≡ h1 = omega arith in
    rw (xor_shift_twice 16 h4 (omega arith), m4, xor_shift-xor_shift_back h2 (omega arith), m2)
      (xor_shift_twice 16 h (omega arith))

-- On the 32-bit words `avalanche` and `deavalanche` are inverse to one another, both ways round.
pub avalanche32_inverse :
    (h : ℕ) → h < 2 ^ 32 → (deavalanche32 (avalanche32 h) ≡ h) × (avalanche32 (deavalanche32 h) ≡ h)
avalanche32_inverse h small = (avalanche32_undone h small, deavalanche32_undone h small)

pub avalanche64-lt : (h : ℕ) → avalanche64 h < 2 ^ 64
unfolding avalanche64
avalanche64-lt h = xor_shift-lt64 33 _ (omega arith)

avalanche64_undone : (h : ℕ) → h < 2 ^ 64 → deavalanche64 (avalanche64 h) ≡ h
unfolding avalanche64 deavalanche64
avalanche64_undone h small =
    let h1 = xor_shift 33 h in
    let h2 = h1 * 0xff51afd7ed558ccd % 2 ^ 64 in
    let h3 = xor_shift 33 h2 in
    let h4 = h3 * 0xc4ceb9fe1a85ec53 % 2 ^ 64 in
    let l1 : h1 < 2 ^ 64 = xor_shift-lt64 33 h small in
    let l3 : h3 < 2 ^ 64 = xor_shift-lt64 33 h2 (omega arith) in
    let m4 : h4 * 0x9cb4b2f8129337db % 2 ^ 64 ≡ h3 = omega arith in
    let m2 : h2 * 0x4f74430c22a54005 % 2 ^ 64 ≡ h1 = omega arith in
    rw (xor_shift_twice 33 h4 (omega arith), m4, xor_shift_twice 33 h2 (omega arith), m2)
      (xor_shift_twice 33 h (omega arith))

deavalanche64_undone : (h : ℕ) → h < 2 ^ 64 → avalanche64 (deavalanche64 h) ≡ h
unfolding avalanche64 deavalanche64
deavalanche64_undone h small =
    let h1 = xor_shift 33 h in
    let h2 = h1 * 0x9cb4b2f8129337db % 2 ^ 64 in
    let h3 = xor_shift 33 h2 in
    let h4 = h3 * 0x4f74430c22a54005 % 2 ^ 64 in
    let l1 : h1 < 2 ^ 64 = xor_shift-lt64 33 h small in
    let l3 : h3 < 2 ^ 64 = xor_shift-lt64 33 h2 (omega arith) in
    let m4 : h4 * 0xff51afd7ed558ccd % 2 ^ 64 ≡ h3 = omega arith in
    let m2 : h2 * 0xc4ceb9fe1a85ec53 % 2 ^ 64 ≡ h1 = omega arith in
    rw (xor_shift_twice 33 h4 (omega arith), m4, xor_shift_twice 33 h2 (omega arith), m2)
      (xor_shift_twice 33 h (omega arith))

-- On the 64-bit words `avalanche` and `deavalanche` are inverse to one another, both ways round.
pub avalanche64_inverse :
    (h : ℕ) → h < 2 ^ 64 → (deavalanche64 (avalanche64 h) ≡ h) × (avalanche64 (deavalanche64 h) ≡ h)
avalanche64_inverse h small = (avalanche64_undone h small, deavalanche64_undone h small)

avalanche_zero : deavalanche64 0 ≡ 0
unfolding deavalanche64 xor_shift
avalanche_zero = refl

pub avalanche_nonzero : (t : ℕ) (small : t < 2 ^ 64) (some_bit : 1 ≤ t) → avalanche64 t ≢ 0
avalanche_nonzero t small some_bit e =
    let back : t ≡ 0 = sym (avalanche64_inverse t small).0 ∙ ap deavalanche64 e ∙ avalanche_zero in
    omega (arith, some_bit, back)
