-- ===== src/Session.antt =====
-- The effects of the program: a SQLAlchemy session (backend/app/db/session.py and
-- backend/app/infra/db.py), exceptions (backend/app/domain/errors.py), and the services outside.
mod Errors
mod Answers
mod Monad
mod Database
pub mod Laws
pub mod Ensures
pub mod Keeps
pub mod Tables
pub use Errors.*
pub use Answers.*
unfoldable pub use Monad.*
unfoldable pub use Database.*
