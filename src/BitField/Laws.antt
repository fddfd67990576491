-- ===== src/BitField/Laws.antt =====
-- turf/BitField.h: reading and writing a member, on the whole word.
use native.Mathlib.Nat.{
  one-le-pow, mod-eq_of_lt, mul-le-mul_right, add-mul, pow-le-pow_right, zero-mul, zero-add,
  add-zero, add_assoc, add-mod_right,
}
use turf.Prelude.{
  ℕ, ◌+◌, ◌-◌, ◌*◌, ◌%◌, ◌^◌, ◌≤◌, ◌<◌, bit_and, bit_or, leb, true, ◌≡◌, refl, ap, ap₂, sym, ◌∙◌,
  arith, some,
}
use turf.Bits.Split.{bit_and_split, bit_or_split}
use turf.Bits.Mask.{and_mask, and_ones, and_high, or-zero, zero-or}
use turf.Bits.Test.{two_pow_add}
use turf.BitField.{maximum, mask, get, assign, add, sub}
use turf.BitField.Cut.{complement, join-lt, two_pow_cut, join-shr, join-low}

-- `high` above the member, `mid` in it and `low` below it.
abbrev pub word : (offset bits high mid low : ℕ) → ℕ
word offset bits high mid low = (high * 2 ^ bits + mid) * 2 ^ offset + low

pub record IsCut (w offset bits above below : ℕ) : Type 0 where
  pub narrow : bits < w
  pub room : offset + bits ≤ w
  pub high : above < 2 ^ (w - offset - bits)
  pub low : below < 2 ^ offset

pub pos : (k : ℕ) → 0 < 2 ^ k
pos k = one-le-pow k 2 (omega arith)

pub word-lt : {w o b h l : ℕ} (m : ℕ) → IsCut w o b h l → m < 2 ^ b → word o b h m l < 2 ^ w
word-lt {w} {o} {b} {h} {l} m cut fits =
    rw (two_pow_cut w o b cut.room)
      (join-lt (2 ^ (w - o - b)) (2 ^ b) (2 ^ o) h m l cut.high fits cut.low)

pow_lt : {w b : ℕ} → b < w → 2 ^ b < 2 ^ w
pow_lt {w} {b} lt =
    let e : w ≡ w - b + b = omega arith in
    let split : 2 ^ w ≡ 2 ^ (w - b) * 2 ^ b = ap (λ (t : ℕ). 2 ^ t) e ∙ two_pow_add (w - b) b in
    let twice : 2 ^ 1 ≤ 2 ^ (w - b) =
      pow-le-pow_right {n = 2} (omega arith) {i = 1} {j = w - b} (omega arith) in
    omega (arith, split, mul-le-mul_right (2 ^ b) twice, pos b)

pub maximum-eq : {w : ℕ} (o : ℕ) {b : ℕ} → b < w → maximum w o b ≡ 2 ^ b - 1
unfolding maximum
maximum-eq {w} o {b} lt =
    let wraps : 2 ^ b + 2 ^ w - 1 ≡ 2 ^ b - 1 + 2 ^ w = omega (arith, pos b) in
    rw (mod-eq_of_lt (pow_lt lt), wraps, add-mod_right)
      (mod-eq_of_lt (omega (arith, pow_lt lt, pos b)))

-- A value in the place of the member alone.
shifted : (o b v : ℕ) → v * 2 ^ o ≡ word o b 0 v 0
shifted o b v = rw (zero-mul, zero-add, add-zero) refl

shifted-lt : {w o b h l v : ℕ} → IsCut w o b h l → v < 2 ^ b → v * 2 ^ o < 2 ^ w
shifted-lt {w} {o} {b} {v = v} cut fits =
    let alone : IsCut w o b 0 0 = record {
      narrow = cut.narrow;
      room = cut.room;
      high = pos _;
      low = pos _;
    } in
    rw (shifted o b v) (word-lt v alone fits)

mask-eq : {w o b h l : ℕ} → IsCut w o b h l → mask w o b ≡ (2 ^ b - 1) * 2 ^ o
unfolding mask
mask-eq {w} {o} {b} cut =
    let small : 2 ^ b - 1 < 2 ^ b = omega (arith, pos b) in
    rw (maximum-eq o cut.narrow) (mod-eq_of_lt (shifted-lt cut small))

-- `value & ~Mask` clears the member.
cleared :
    {w o b h l : ℕ} (m : ℕ)
    → IsCut w o b h l
    → m < 2 ^ b
    → bit_and (word o b h m l) (2 ^ w - 1 - mask w o b) ≡ h * 2 ^ b * 2 ^ o + l
cleared {w} {o} {b} {h} {l} m cut fits =
    let c = 2 ^ (w - o - b) in
    let others : 2 ^ w - 1 - mask w o b ≡ (c - 1) * 2 ^ b * 2 ^ o + (2 ^ o - 1) =
      rw (mask-eq cut, two_pow_cut w o b cut.room)
        (complement c (2 ^ b) (2 ^ o) (pos _) (pos _) (pos _)) in
    ap (bit_and (word o b h m l)) others
    ∙ bit_and_split o (h * 2 ^ b + m) ((c - 1) * 2 ^ b) l (2 ^ o - 1) cut.low (omega (arith, pos o))
    ∙ rw (and_high b h (c - 1) m fits, and_ones (w - o - b) h cut.high, and_ones o l cut.low) refl

-- `| (v << Offset)` fills it.
filled :
    {w o b h l : ℕ} (v : ℕ)
    → IsCut w o b h l
    → v < 2 ^ b
    → bit_or (h * 2 ^ b * 2 ^ o + l) (v * 2 ^ o) ≡ word o b h v l
filled {w} {o} {b} {h} {l} v cut fits =
    let above : bit_or (h * 2 ^ b) v ≡ h * 2 ^ b + v =
      ap₂ bit_or (sym (add-zero (h * 2 ^ b))) (let e : v ≡ 0 * 2 ^ b + v = omega arith in e)
      ∙ bit_or_split b h 0 0 v (pos b) fits
      ∙ rw (or-zero h, zero-or v) refl in
    ap (bit_or (h * 2 ^ b * 2 ^ o + l)) (sym (add-zero (v * 2 ^ o)))
    ∙ bit_or_split o (h * 2 ^ b) v l 0 cut.low (pos o)
    ∙ rw (above, or-zero l) refl

-- Reading a member yields what stands in it, for a member of fewer bits than the word that lies
-- within it.
pub get-word :
    {w o b h l : ℕ} (m : ℕ) → IsCut w o b h l → m < 2 ^ b → get w o b (word o b h m l) ≡ m
unfolding get
get-word {w} {o} {b} {h} {l} m cut fits =
    ap₂ bit_and (join-shr (h * 2 ^ b + m) (2 ^ o) l cut.low) (maximum-eq o cut.narrow)
    ∙ and_mask b (h * 2 ^ b + m)
    ∙ join-low h (2 ^ b) m fits

-- For a member of fewer bits than the word that lies within it: assigning a value that fits puts
-- it into the member, and leaves the bits above and below as they are.
pub assign-word :
    {w o b h l : ℕ} (m v : ℕ)
    → IsCut w o b h l
    → m < 2 ^ b
    → v < 2 ^ b
    → assign w o b v (word o b h m l) ≡ some (word o b h v l)
unfolding assign
assign-word {w} {o} {b} m v cut fits small =
    let passes : leb v (maximum w o b) ≡ true = rw (maximum-eq o cut.narrow) (ground arith) in
    rw (passes, cleared m cut fits, mod-eq_of_lt (shifted-lt cut small), filled v cut small) refl

word-add : (o b h l m v : ℕ) → word o b h m l + v * 2 ^ o ≡ word o b h (m + v) l
word-add o b h l m v = omega (
  arith,
  add-mul (h * 2 ^ b + m) v (2 ^ o),
  ap (λ (t : ℕ). t * 2 ^ o) (add_assoc (h * 2 ^ b) m v),
)

-- For a member of fewer bits than the word that lies within it: `+=` changes the member alone if
-- the sum fits.
pub add-word :
    {w o b h l : ℕ} (m v : ℕ)
    → IsCut w o b h l
    → m + v < 2 ^ b
    → add w o b v (word o b h m l) ≡ some (word o b h (m + v) l)
unfolding add
add-word {w} {o} {b} {h} {l} m v cut fits =
    let small : v < 2 ^ b = omega arith in
    let kept : get w o b (word o b h m l) ≡ m = get-word m cut (omega arith) in
    let sum : m + v < 2 ^ w = omega (arith, pow_lt cut.narrow) in
    let passes : leb ((m + v) % 2 ^ w) (maximum w o b) ≡ true =
      rw (maximum-eq o cut.narrow, mod-eq_of_lt sum) (ground arith) in
    rw
      (
        kept,
        passes,
        mod-eq_of_lt (shifted-lt cut small),
        word-add o b h l m v,
        mod-eq_of_lt (word-lt (m + v) cut fits),
      )
      refl

-- For a member of fewer bits than the word that lies within it: `-=` changes the member alone if
-- the value in it is large enough.
pub sub-word :
    {w o b h l : ℕ} (m v : ℕ)
    → IsCut w o b h l
    → m < 2 ^ b
    → v ≤ m
    → sub w o b v (word o b h m l) ≡ some (word o b h (m - v) l)
unfolding sub
sub-word {w} {o} {b} {h} {l} m v cut fits le =
    let back : m - v + v ≡ m = omega arith in
    let whole : word o b h m l ≡ word o b h (m - v) l + v * 2 ^ o =
      sym (word-add o b h l (m - v) v ∙ ap (λ (t : ℕ). word o b h t l) back) in
    let less : v * 2 ^ o < 2 ^ w = shifted-lt cut (omega arith) in
    let turn : word o b h m l + (2 ^ w - v * 2 ^ o) ≡ word o b h (m - v) l + 2 ^ w =
      omega (arith, whole, less) in
    let passes : leb v (get w o b (word o b h m l)) ≡ true =
      rw (get-word m cut fits) (ground arith) in
    rw
      (
        passes,
        mod-eq_of_lt less,
        turn,
        add-mod_right,
        mod-eq_of_lt (word-lt (m - v) cut (omega arith)),
      )
      refl
