-- ===== src/Vault.antt =====
-- Secrets: backend/app/infra/vault.py and backend/app/config.py.
mod Adapter
mod Config
pub mod Gate
unfoldable pub use Adapter.*
unfoldable pub use Config.*
