-- ===== src/Bits.antt =====
-- The bit operations at variables, for the code that shifts and masks.
pub mod Digits
pub mod Split
pub mod Xor
pub mod Test
pub mod Mask
