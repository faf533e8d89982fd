-- ===== src/Tests.antt =====
-- Runs of the definitions on small tables, and the theorems at these runs.
mod Samples
mod Histories
mod Runs
mod Failures
mod Sequences
mod StartUp
mod Routes
mod Classifiers
mod Adapters
mod Grants
mod Polls
mod Seeding
