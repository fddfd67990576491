-- ===== src/BitField.antt =====
-- turf/BitField.h: a member of `bits` bits at `offset` in a word of `w` bits, 32 or 64, and an array of
-- such members. A failed assertion is `none`.
pub mod Cut
pub mod Laws
pub mod Items
mod Tests
use turf.Prelude.{
  ℕ, ◌+◌, ◌-◌, ◌*◌, ◌/◌, ◌%◌, ◌^◌, bit_and, bit_or, ltb, leb, if◌then◌else◌, Option, none, some,
}

module _ (w offset bits : ℕ) where
  -- `(T(1) << Bits) - 1`
  pub maximum : ℕ
  maximum = (2 ^ bits % 2 ^ w + 2 ^ w - 1) % 2 ^ w

  -- `Maximum << Offset`
  pub mask : ℕ
  unfolding maximum
  mask = maximum * 2 ^ offset % 2 ^ w

  pub get : ℕ → ℕ
  unfolding maximum
  get value = bit_and (value / 2 ^ offset) maximum

  -- `value = (value & ~Mask) | (v << Offset)`
  pub assign : ℕ → ℕ → Option ℕ
  unfolding maximum mask
  assign v value =
      if leb v maximum
      then some (bit_or (bit_and value (2 ^ w - 1 - mask)) (v * 2 ^ offset % 2 ^ w))
      else none

  -- `operator+=`; the sum in the assertion wraps as well.
  pub add : ℕ → ℕ → Option ℕ
  unfolding maximum get
  add v value =
      if leb ((get value + v) % 2 ^ w) maximum
      then some ((value + v * 2 ^ offset % 2 ^ w) % 2 ^ w)
      else none

  -- `operator-=`
  pub sub : ℕ → ℕ → Option ℕ
  unfolding get
  sub v value =
      if leb v (get value) then some ((value + (2 ^ w - v * 2 ^ offset % 2 ^ w)) % 2 ^ w) else none

  -- `operator++` and `operator--`
  pub increment : ℕ → Option ℕ
  unfolding add
  increment value = add 1 value

  pub decrement : ℕ → Option ℕ
  unfolding sub
  decrement value = sub 1 value

-- `BitFieldArray`, of `num_items` members of `bits` bits from `base` on.
module _ (w base bits num_items : ℕ) where
  pub get_item : ℕ → ℕ → Option ℕ
  unfolding get
  get_item i value = if ltb i num_items then some (get w (base + bits * i) bits value) else none

  pub assign_item : ℕ → ℕ → ℕ → Option ℕ
  unfolding assign
  assign_item i v value = if ltb i num_items then assign w (base + bits * i) bits v value else none

  pub add_item : ℕ → ℕ → ℕ → Option ℕ
  unfolding add
  add_item i v value = if ltb i num_items then add w (base + bits * i) bits v value else none

  pub sub_item : ℕ → ℕ → ℕ → Option ℕ
  unfolding sub
  sub_item i v value = if ltb i num_items then sub w (base + bits * i) bits v value else none
