-- ===== src/Sequence/Tests.antt =====
-- Calls of `next` from the default parameters.
use turf.Prelude.{◌≢◌, arith}
use turf.Sequence.{UniqueSequence, permute}
use turf.Sequence.Permute.{permute_distinct}
use turf.Sequence.Distinct.{output, next_unique}

abbrev first : UniqueSequence
first = record { cur_index = 4294967290; param0 = 0x7012fe08; param1 = 0x5bf03635 }

-- The index wraps between the two calls.
next_unique_example : output 3 first ≢ output 9 first
next_unique_example =
    next_unique first (omega arith) (omega arith) (omega arith) 3 9 (omega arith) (omega arith)
      (omega arith)

permute_distinct_example : permute 5 ≢ permute 4294967286
permute_distinct_example = permute_distinct 5 4294967286 (omega arith) (omega arith) (omega arith)
