-- ===== src/FsMemory/Tests.antt =====
-- Runs of the in-memory file system.
mod States
mod Effects
mod Faults
