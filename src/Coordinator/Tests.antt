-- ===== src/Coordinator/Tests.antt =====
-- Runs of the coordinator: two servers of the first of two clusters.
mod States
mod Runs
mod Races
mod Ids
