-- ===== src/Guards/Routes.antt =====
-- What the routes of the API refuse, raise and return.
pub mod Statuses
pub mod Refusals
pub mod Reviews
pub mod Pages
pub mod Recent
