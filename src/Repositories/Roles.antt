-- ===== src/Repositories/Roles.antt =====
-- backend/app/repositories/roles.py
use document_classifier_week.Prelude.{
  String, Bool, true, false, ◌&&◌, Option, none, some, List, ◌==◌, nat_eq, string_eq, select,
}
use document_classifier_week.Models.{
  Uuid, RoleAssignment, Change, is_active, is_active_of, as_revoked,
}
use document_classifier_week.Session.{
  Outside, M, pure, write, ◌>>=◌, ◌>>◌, statement, rows, rows_at, scalar_one_or_none, now,
}

abbrev pub is_active_role : Uuid → String → RoleAssignment → Bool
is_active_role user_id role r = r.user_id == user_id && (r.role == role && is_active r)

module _ (o : Outside) where
  unfoldable pub get_active_roles : Uuid → M (List RoleAssignment)
  get_active_roles user_id =
      rows_at o (λ t db. o.in_any_order t (select (is_active_of user_id) db.role_assignments))

  unfoldable pub has_active_role : Uuid → String → M Bool
  has_active_role user_id role = do
    found ← rows o (λ db. select (is_active_role user_id role) db.role_assignments)
    row ← scalar_one_or_none found
    pure (elim row [ none ↦ false | some r ↦ true ])

  unfoldable pub get_by_id : Uuid → M (Option RoleAssignment)
  get_by_id role_id = do
    found ← rows o (λ db. select (λ r. r.id == role_id) db.role_assignments)
    scalar_one_or_none found

  unfoldable pub create : RoleAssignment → M RoleAssignment
  create a = do write (Change.add_role a); statement o; pure a

  unfoldable pub revoke_found : Option RoleAssignment → M (Option RoleAssignment)
  revoke_found none = pure none
  revoke_found (some r) = do
    t ← now o
    write (Change.revoke_role r.id t)
    statement o
    pure (some (as_revoked t r))

  -- The callers leave `revoked_at` out.
  unfoldable pub revoke : Uuid → M (Option RoleAssignment)
  revoke role_id = do r ← get_by_id role_id; revoke_found r

  -- The loop sets `revoked_at` on each row that the query found.
  unfoldable pub revoke_all_for_user : Uuid → M Unit
  revoke_all_for_user user_id = do
    get_active_roles user_id
    t ← now o
    write (Change.revoke_roles_of user_id t)
    statement o
