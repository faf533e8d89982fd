-- ===== src/Guards.antt =====
-- Who may do what: the permissions of the roles, and the guards of the services.
pub mod Permissions
pub mod Refusals
pub mod StartUp
mod Steps
pub mod Reviews
pub mod Roles
pub mod Ingestions
pub mod Jobs
pub mod Refinement
pub mod Buckets
pub mod Polls
pub mod Routes
