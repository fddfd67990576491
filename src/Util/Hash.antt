-- ===== src/Util/Hash.antt =====
-- turf/Util.h, `avalanche` and `deavalanche`: the finalisers of MurmurHash3 and their inverses.
pub mod Laws
mod Tests
use turf.Prelude.{ℕ, ◌*◌, ◌/◌, ◌%◌, ◌^◌, bit_xor}

-- `h ^= h >> k`
pub xor_shift : ℕ → ℕ → ℕ
xor_shift k h = bit_xor h (h / 2 ^ k)

-- `h ^= (h ^ (h >> 13)) >> 13`
pub xor_shift_back : ℕ → ℕ
xor_shift_back h = bit_xor h (bit_xor h (h / 2 ^ 13) / 2 ^ 13)

-- `u32 avalanche(u32 h)`; a product is cut to the width of the variable that it is stored in.
pub avalanche32 : ℕ → ℕ
avalanche32 h =
    let h1 = xor_shift 16 h in
    let h2 = h1 * 0x85ebca6b % 2 ^ 32 in
    let h3 = xor_shift 13 h2 in let h4 = h3 * 0xc2b2ae35 % 2 ^ 32 in xor_shift 16 h4

pub deavalanche32 : ℕ → ℕ
deavalanche32 h =
    let h1 = xor_shift 16 h in
    let h2 = h1 * 0x7ed1b41d % 2 ^ 32 in
    let h3 = xor_shift_back h2 in let h4 = h3 * 0xa5cb9243 % 2 ^ 32 in xor_shift 16 h4

pub avalanche64 : ℕ → ℕ
avalanche64 h =
    let h1 = xor_shift 33 h in
    let h2 = h1 * 0xff51afd7ed558ccd % 2 ^ 64 in
    let h3 = xor_shift 33 h2 in let h4 = h3 * 0xc4ceb9fe1a85ec53 % 2 ^ 64 in xor_shift 33 h4

pub deavalanche64 : ℕ → ℕ
deavalanche64 h =
    let h1 = xor_shift 33 h in
    let h2 = h1 * 0x9cb4b2f8129337db % 2 ^ 64 in
    let h3 = xor_shift 33 h2 in let h4 = h3 * 0x4f74430c22a54005 % 2 ^ 64 in xor_shift 33 h4
