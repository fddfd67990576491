-- ===== src/JobDispatcher.antt =====
-- turf/extra/JobDispatcher.h and SpinKicker.h.
pub mod System
pub mod Invariant
pub mod Safety
pub mod Pool
pub mod Resize
pub mod Progress
mod Tests
