-- ===== src/Util/Hash/Tests.antt =====
-- The finalisers on words.
use turf.Prelude.{◌≡◌, arith}
use turf.Util.Hash.{avalanche32, deavalanche32}
use turf.Util.Hash.Laws.{avalanche32_inverse}

avalanche32_inverse_example :
    (deavalanche32 (avalanche32 123456789) ≡ 123456789)
    × (avalanche32 (deavalanche32 123456789) ≡ 123456789)
avalanche32_inverse_example = avalanche32_inverse 123456789 (omega arith)
