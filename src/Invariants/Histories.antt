-- ===== src/Invariants/Histories.antt =====
-- What every history of requests keeps.
pub mod Records
pub mod Labels
