-- ===== src/Api.antt =====
-- backend/app/api: the route handlers. FastAPI gives them the authenticated user and the session; a
-- handler answers with a value, or raises `HTTPException` with a status code. Any other exception is a
-- response 500 of the server.
pub mod Dependencies
pub mod Predictions
pub mod Users
pub mod Batches
pub mod AuditEvents
pub mod Health
pub mod Routes
