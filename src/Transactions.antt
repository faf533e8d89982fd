-- ===== src/Transactions.antt =====
-- The transactions of the services: a service that raises has committed nothing to the
-- session's tables, and what Casbin, which is not part of the transaction, has stored by then.
mod Atomic
mod Quiet
pub mod Services
pub mod Grants
mod Mute
pub mod Stored
