-- ===== src/BitField/Tests.antt =====
-- A member of 5 bits at offset 8 in a word of 32 bits.
use turf.Prelude.{ℕ, ◌==◌, if◌then◌else◌, ◌≡◌, some, arith}
use turf.BitField.{assign, add, get_item, assign_item}
use turf.BitField.Items.{assign_item-get_item}
use turf.BitField.Laws.{word, IsCut, assign-word, add-word}

five_bits : IsCut 32 8 5 3 200
five_bits = record {
  narrow = omega arith;
  room = omega arith;
  high = omega arith;
  low = omega arith;
}

assign-word_example : assign 32 8 5 31 (word 8 5 3 17 200) ≡ some (word 8 5 3 31 200)
assign-word_example = assign-word 17 31 five_bits (omega arith) (omega arith)

add-word_example : add 32 8 5 4 (word 8 5 3 17 200) ≡ some (word 8 5 3 21 200)
add-word_example = add-word 17 4 five_bits (omega arith)

-- Four items of 6 bits from bit 3 on; item 2 is written and item 1 read.
assign_item-get_item_example :
    (value' : ℕ) × (assign_item 32 3 6 4 2 45 123456 ≡ some value')
    × (get_item 32 3 6 4 1 value' ≡ (if 1 == 2 then some 45 else get_item 32 3 6 4 1 123456))
assign_item-get_item_example =
    assign_item-get_item 32 3 6 4 123456 2 1 45 (omega arith) (omega arith) (omega arith)
      (omega arith) (omega arith) (omega arith)
