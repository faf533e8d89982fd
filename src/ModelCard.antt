-- ===== src/ModelCard.antt =====
-- backend/app/classifier/validation.py and backend/app/domain/model_metadata.py
mod Values
pub mod Checks
mod Checksum
mod Card
mod Validation
pub mod Digest
pub mod Accepted
pub use Values.*
unfoldable pub use Checksum.*
pub use Card.*
unfoldable pub use Validation.*
