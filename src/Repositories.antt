-- ===== src/Repositories.antt =====
-- backend/app/repositories: SQL over the tables, a module for each file. A pending change of a row
-- is a change of the session's table, which the next `flush` or `commit` writes. The queries that
-- order or page their rows are not modelled here.
pub mod Roles
pub mod Users
pub mod Batches
pub mod Documents
pub mod Jobs
pub mod Predictions
pub mod AuditEvents
