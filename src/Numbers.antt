-- ===== src/Numbers.antt =====
-- The arithmetic of remainders that the sequence of distinct numbers rests on.
pub mod Congruence
pub mod Binomial
pub mod Prime
pub mod Fermat
pub mod Cover
