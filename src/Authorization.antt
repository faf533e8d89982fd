-- ===== src/Authorization.antt =====
-- backend/app/infra/authz/casbin_enforcer.py and rbac_model.conf, backend/app/domain/roles.py,
-- backend/app/services/authorization.py. The enforcer of Casbin is outside: its relation `g` and its
-- rules `p` are functions of the calls that it has accepted, which it stores in a session of its own.
mod Terms
mod Enforcer
unfoldable pub use Terms.*
unfoldable pub use Enforcer.*
