-- ===== src/Atomic/X86/Tests.antt =====
-- Runs of the operations on a cell that changes under them.
