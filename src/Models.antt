-- ===== src/Models.antt =====
-- backend/app/db/models.py: the mapped tables. A UUID is its 128-bit number, a datetime the number
-- of its instant, and a file's content its list of bytes. The rows of a table are a list, the newest
-- first. Server-side timestamps (`created_at`, `updated_at`, `last_login_at`) are not modelled.
mod Statuses
mod Rows
mod Changes
unfoldable pub use Statuses.*
pub use Rows.*
unfoldable pub use Changes.*
