-- ===== src/Util/Word/Tests.antt =====
-- The arithmetic of words on numbers.
use turf.Prelude.{ℕ, ◌*◌, ◌^◌, ◌≤◌, ◌<◌, ◌≡◌, arith}
use turf.Util.Word.{round_up_power_of2_32}
use turf.Util.Word.PowerOf2.{round_up_power_of2_32_least}

round_up_power_of2_32_least_example :
    (k : ℕ) × (round_up_power_of2_32 1000 ≡ 2 ^ k) × (1000 ≤ 2 ^ k) × (2 ^ k < 2 * 1000)
round_up_power_of2_32_least_example = round_up_power_of2_32_least 1000 (omega arith) (omega arith)
