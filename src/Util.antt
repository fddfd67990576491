-- ===== src/Util.antt =====
-- turf/Util.h: arithmetic on machine words. `ureg` is taken at 64 bits, as on a 64-bit target.
pub mod Word
pub mod Hash
