-- ===== src/Trace.antt =====
-- turf/impl/Trace_MemLog.h, turf/impl/Trace_Counters.h and their source files.
pub mod MemLog
pub mod Counters
