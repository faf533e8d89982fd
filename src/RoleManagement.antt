-- ===== src/RoleManagement.antt =====
-- backend/app/services/role_management.py, method by method.
use document_classifier_week.Prelude.{
  String, not, Option, none, some, List, [], ◌∷◌, map, ◌==◌, string_eq, contains, str,
  if◌then◌else◌,
}
use document_classifier_week.Models.{Uuid, RoleAssignment, Details}
use document_classifier_week.Session.{
  Outside, value_error, M, pure, raise, raise_if, ◌>>=◌, ◌>>◌, for_each, uuid4, now, commit,
}
use document_classifier_week.Repositories.Roles
use document_classifier_week.Authorization
use document_classifier_week.Audit.{record_event}
use document_classifier_week.Cache.{or_warn, invalidate_user_roles}

abbrev pub valid_roles : List String
valid_roles = "admin" ∷ "reviewer" ∷ "auditor" ∷ []

-- `next((r for r in active if r.role == role), None)`
abbrev pub first_with_role : String → List RoleAssignment → Option RoleAssignment
first_with_role role [] = none
first_with_role role (r ∷ active) =
    let rest = first_with_role role active in if r.role == role then some r else rest

module _ (o : Outside) where
  unfoldable pub require_admin : Uuid → M Unit
  require_admin user_id = Authorization.require_permission o user_id "roles" "manage"

  unfoldable pub validate_role : String → M Unit
  validate_role role = raise_if (not (contains role valid_roles)) value_error

  -- `RoleAssignment(...)` of a new assignment
  unfoldable pub new_assignment : Uuid → String → Uuid → M RoleAssignment
  new_assignment target_user_id role acting_admin_id = do
    id ← uuid4 o
    t ← now o
    pure (record {
      id = id;
      user_id = target_user_id;
      role = role;
      assigned_by_user_id = some acting_admin_id;
      assigned_at = t;
      revoked_at = none;
    })

  -- the audit event of a change of the target's roles
  unfoldable pub audit_change : String → Uuid → Uuid → Details → Option String → M Unit
  audit_change action target_user_id acting_admin_id details request_id = do
    record_event o action "success" (some acting_admin_id) (some "user") (some (str target_user_id))
        (some details) request_id
    pure tt

  unfoldable pub grant : Uuid → String → Uuid → Option String → M (Option RoleAssignment)
  grant target_user_id role acting_admin_id request_id = do
    assignment ← new_assignment target_user_id role acting_admin_id
    Roles.create o assignment
    Authorization.assign_role o target_user_id role
    audit_change "role.assigned" target_user_id acting_admin_id (Details.role role) request_id
    commit o
    or_warn (invalidate_user_roles o target_user_id)
    pure (some assignment)

  unfoldable pub assign_role : Uuid → String → Uuid → Option String → M (Option RoleAssignment)
  assign_role target_user_id role acting_admin_id request_id = do
    require_admin acting_admin_id
    validate_role role
    has_role ← Roles.has_active_role o target_user_id role
    if has_role
        then (Authorization.assign_role o target_user_id role >> pure none)
        else grant target_user_id role acting_admin_id request_id

  unfoldable pub revoke_target :
      Option RoleAssignment → Uuid → String → Uuid → Option String → M Unit
  revoke_target none target_user_id role acting_admin_id request_id = raise value_error
  revoke_target (some target) target_user_id role acting_admin_id request_id = do
    Roles.revoke o target.id
    Authorization.remove_role o target_user_id role
    audit_change "role.revoked" target_user_id acting_admin_id (Details.role role) request_id
    commit o
    or_warn (invalidate_user_roles o target_user_id)

  unfoldable pub revoke_role : Uuid → String → Uuid → Option String → M Unit
  revoke_role target_user_id role acting_admin_id request_id = do
    require_admin acting_admin_id
    validate_role role
    active ← Roles.get_active_roles o target_user_id
    revoke_target (first_with_role role active) target_user_id role acting_admin_id request_id

  -- the loop of `replace_roles`, with the list that it builds
  unfoldable pub assign_each : List String → Uuid → Uuid → M (List RoleAssignment)
  assign_each [] target_user_id acting_admin_id = pure []
  assign_each (role ∷ new_roles) target_user_id acting_admin_id = do
    assignment ← new_assignment target_user_id role acting_admin_id
    Roles.create o assignment
    Authorization.assign_role o target_user_id role
    assignments ← assign_each new_roles target_user_id acting_admin_id
    pure (assignment ∷ assignments)

  unfoldable pub replace_roles : Uuid → List String → Uuid → Option String → M (List RoleAssignment)
  replace_roles target_user_id new_roles acting_admin_id request_id = do
    require_admin acting_admin_id
    for_each new_roles validate_role
    Roles.revoke_all_for_user o target_user_id
    Authorization.remove_roles_for_user o target_user_id
    assignments ← assign_each new_roles target_user_id acting_admin_id
    audit_change "role.replaced" target_user_id acting_admin_id (Details.new_roles new_roles)
        request_id
    commit o
    or_warn (invalidate_user_roles o target_user_id)
    pure assignments

  unfoldable pub get_active_roles : Uuid → M (List String)
  get_active_roles user_id = do
    active ← Roles.get_active_roles o user_id
    pure (map (λ r. r.role) active)
