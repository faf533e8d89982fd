-- ===== src/Invariants/Services.antt =====
-- Every service keeps each property of the tables that sound changes keep.
mod Roles
mod Reviews
mod Jobs
mod Files
mod Workers
pub use Roles.*
pub use Reviews.*
pub use Jobs.*
pub use Files.*
pub use Workers.*
