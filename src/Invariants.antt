-- ===== src/Invariants.antt =====
-- Invariants of the whole database: which changes the services write, and what every history of
-- requests keeps.
mod Sound
mod Leaves
mod Services
mod Requests
pub mod Histories
unfoldable pub use Requests.*
pub use Sound.*
