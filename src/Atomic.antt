-- ===== src/Atomic.antt =====
-- turf/c/atomic.h and the platform headers under turf/c/impl: atomic operations on one cell that
-- other threads write to at the same time.
pub mod Bus
pub mod Ops
pub mod X86
pub mod Arm
pub mod Msvc
pub mod Ordered
