-- ===== src/Atomic/Ordered/Tests.antt =====
-- Runs with a memory order, on the x86 platform.
