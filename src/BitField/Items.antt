-- ===== src/BitField/Items.antt =====
-- turf/BitField.h: the items of an array.
use native.Mathlib.Nat.{
  mod-lt, mul-add-div_right, mul-add-mod_self_right, mul-le-mul_left, mul_assoc, mul-suc,
  div-lt_iff_lt-mul, div-add-mod',
}
use turf.Prelude.{
  ℕ, ◌+◌, ◌-◌, ◌*◌, ◌/◌, ◌%◌, ◌^◌, ◌≤◌, ◌<◌, lt→ltb, ◌==◌, ==_iff, if◌then◌else◌, true, false, Bool,
  Bool-cases, inl, inr, some, ◌≡◌, ◌≢◌, ◌⊎◌, ap, sym, ◌∙◌, refl, arith, dec_lt,
}
use turf.Bits.Test.{shr_shr}
use turf.Bits.Mask.{and_mask}
use turf.BitField.{get, assign, get_item, assign_item}
use turf.BitField.Cut.{two_pow_cut, join-shr}
use turf.BitField.Laws.{word, IsCut, pos, maximum-eq, get-word, assign-word}

get-mod : {w : ℕ} (o : ℕ) {b : ℕ} (x : ℕ) → b < w → get w o b x ≡ x / 2 ^ o % 2 ^ b
unfolding get
get-mod o {b} x narrow = rw (maximum-eq o narrow) (and_mask b (x / 2 ^ o))

-- A member that lies above the one that is written.
get_above :
    {w o b h l : ℕ} (m p : ℕ)
    → IsCut w o b h l
    → m < 2 ^ b
    → o + b ≤ p
    → get w p b (word o b h m l) ≡ h / 2 ^ (p - o - b) % 2 ^ b
get_above {w} {o} {b} {h} {l} m p cut fits above =
    let e : p ≡ o + b + (p - o - b) = omega arith in
    let high : word o b h m l / 2 ^ o / 2 ^ b ≡ h =
      ap (λ (t : ℕ). t / 2 ^ b) (join-shr (h * 2 ^ b + m) (2 ^ o) l cut.low)
      ∙ join-shr h (2 ^ b) m fits in
    get-mod p (word o b h m l) cut.narrow
    ∙ ap (λ (t : ℕ). t % 2 ^ b)
        (ap (λ (t : ℕ). word o b h m l / 2 ^ t) e
          ∙ sym (shr_shr (word o b h m l) (o + b) (p - o - b))
          ∙ ap (λ (t : ℕ). t / 2 ^ (p - o - b)) (sym (shr_shr (word o b h m l) o b) ∙ high))

-- A member that lies below it.
get_below :
    {w o b h l : ℕ} (m p : ℕ)
    → IsCut w o b h l
    → p + b ≤ o
    → get w p b (word o b h m l) ≡ l / 2 ^ p % 2 ^ b
get_below {w} {o} {b} {h} {l} m p cut below =
    let q = h * 2 ^ b + m in
    let shift : q * 2 ^ o ≡ q * 2 ^ (o - p - b) * 2 ^ b * 2 ^ p =
      ap (λ (t : ℕ). q * t) (two_pow_cut o p b below)
      ∙ sym (mul_assoc q (2 ^ (o - p - b) * 2 ^ b) (2 ^ p))
      ∙ ap (λ (t : ℕ). t * 2 ^ p) (sym (mul_assoc q (2 ^ (o - p - b)) (2 ^ b))) in
    get-mod p (word o b h m l) cut.narrow
    ∙ ap (λ (t : ℕ). (t + l) / 2 ^ p % 2 ^ b) shift
    ∙ ap (λ (t : ℕ). t % 2 ^ b)
        (mul-add-div_right {m = 2 ^ p} (pos p) (q * 2 ^ (o - p - b) * 2 ^ b) l)
    ∙ mul-add-mod_self_right (q * 2 ^ (o - p - b)) (2 ^ b) (l / 2 ^ p)

-- Every word is cut by a member into three parts.
split_up :
    (w o b x : ℕ)
    → b < w
    → o + b ≤ w
    → x < 2 ^ w
    → IsCut w o b (x / 2 ^ o / 2 ^ b) (x % 2 ^ o)
      × (x ≡ word o b (x / 2 ^ o / 2 ^ b) (x / 2 ^ o % 2 ^ b) (x % 2 ^ o))
split_up w o b x narrow room small = (
  record {
    narrow = narrow;
    room = room;
    high =
        (div-lt_iff_lt-mul (pos b)).1
          ((div-lt_iff_lt-mul (pos o)).1 (omega (arith, two_pow_cut w o b room)));
    low = mod-lt x (pos o);
  },
  sym (
      ap (λ (t : ℕ). t * 2 ^ o + x % 2 ^ o) (div-add-mod' (x / 2 ^ o) (2 ^ b))
      ∙ div-add-mod' x (2 ^ o)),
)

-- A member that does not overlap the one that is written keeps its value.
elsewhere :
    {w o b h l : ℕ} (m v p : ℕ)
    → IsCut w o b h l
    → m < 2 ^ b
    → v < 2 ^ b
    → (o + b ≤ p) ⊎ (p + b ≤ o)
    → get w p b (word o b h v l) ≡ get w p b (word o b h m l)
elsewhere m v p cut fits small (inl above) =
    get_above v p cut small above ∙ sym (get_above m p cut fits above)
elsewhere m v p cut fits small (inr below) = get_below v p cut below ∙ sym (get_below m p cut below)

-- Where two items stand.
apart : (base b i j : ℕ) → i < j → base + b * i + b ≤ base + b * j
apart base b i j lt = omega (arith, mul-suc b i, mul-le-mul_left b lt)

sides :
    (base b i j : ℕ) → i ≢ j → (base + b * i + b ≤ base + b * j) ⊎ (base + b * j + b ≤ base + b * i)
sides base b i j differ = elim (dec_lt i j) [
  | yes lt ↦ inl (apart base b i j lt)
  | no ge ↦ inr (apart base b j i (omega (arith, differ)))
]

if_some : (c : Bool) (x y : ℕ) → some (if c then x else y) ≡ (if c then some x else some y)
if_some true x y = refl
if_some false x y = refl

-- For an array that lies within the word, of items of fewer bits than the word: assigning a value
-- that fits to item `i` puts it there, and every other item keeps what it held.
pub assign_item-get_item :
    (w base bits num_items value i j v : ℕ)
    → bits < w
    → base + bits * num_items ≤ w
    → value < 2 ^ w
    → i < num_items
    → j < num_items
    → v < 2 ^ bits
    → (value' : ℕ) × (assign_item w base bits num_items i v value ≡ some value')
      × (get_item w base bits num_items j value'
          ≡ (if j == i then some v else get_item w base bits num_items j value))
unfolding assign_item get_item
assign_item-get_item w base b n value i j v narrow room small hi hj fits =
    let o = base + b * i in
    let p = base + b * j in
    let (cut, whole) =
      split_up w o b value narrow (omega (arith, apart base b i n hi, room)) small in
    let h = value / 2 ^ o / 2 ^ b in
    let m = value / 2 ^ o % 2 ^ b in
    let l = value % 2 ^ o in
    let inside : m < 2 ^ b = mod-lt (value / 2 ^ o) (pos b) in
    let written : assign w o b v value ≡ some (word o b h v l) =
      ap (assign w o b v) whole ∙ assign-word m v cut inside fits in
    let read : get w p b (word o b h v l) ≡ (if j == i then v else get w p b value) =
      elim (Bool-cases (j == i)) [
        | inl same ↦ rw (same) (
            ap (λ (t : ℕ). get w (base + b * t) b (word o b h v l)) ((==_iff j i).0 same)
            ∙ get-word v cut fits)
        | inr other ↦ rw (other) (
            elsewhere m v p cut inside fits
              (sides base b i j (λ (e : i ≡ j). ground (arith, other, e)))
            ∙ ap (get w p b) (sym whole))
      ] in
    (
      word o b h v l,
      rw (lt→ltb i n hi) written,
      rw (lt→ltb j n hj) (ap some read ∙ if_some (j == i) v (get w p b value)),
    )
