-- ===== src/Api/Users.antt =====
-- backend/app/api/users.py and backend/app/api/roles.py
use document_classifier_week.Prelude.{String, Bool, none, List, map}
use document_classifier_week.Models.{Uuid, User}
use document_classifier_week.Session.{
  Outside, Error, permission_denied, value_error, user_invitation_already_exists, http_exception, M,
  pure, raise, catch, ◌>>=◌, ◌>>◌,
}
use document_classifier_week.RoleManagement
use document_classifier_week.UserManagement
use document_classifier_week.UserManagement.{AdminUserProfile}
use document_classifier_week.Api.Dependencies.{require_permission}

-- `CurrentUserProfile`
pub record CurrentUserProfile : Type 0 where
  pub id : Uuid
  pub email : String
  pub is_active : Bool
  pub roles : List String

-- the `except` clauses of the routes
abbrev pub invite_error : Error → Error
invite_error user_invitation_already_exists = http_exception 409
invite_error e = e

abbrev pub roles_error : Error → Error
roles_error permission_denied = http_exception 403
roles_error value_error = http_exception 400
roles_error e = e

module _ (o : Outside) where
  unfoldable pub get_current_user : User → M CurrentUserProfile
  get_current_user user = do
    roles ← RoleManagement.get_active_roles o user.id
    pure (record { id = user.id; email = user.email; is_active = user.is_active; roles = roles })

  unfoldable pub list_users : Uuid → M (List AdminUserProfile)
  list_users user = do require_permission o user "users" "manage"; UserManagement.list_users o 100 0

  unfoldable pub invite_user : Uuid → String → M AdminUserProfile
  invite_user user email = do
    acting_admin ← require_permission o user "users" "manage"
    catch (UserManagement.invite_user o email acting_admin none) (λ e. raise (invite_error e))

  -- the user and the roles of the answer
  unfoldable pub replace_user_roles : Uuid → Uuid → List String → M (Uuid × List String)
  replace_user_roles user user_id new_roles = do
    acting_admin ← require_permission o user "roles" "manage"
    assignments ←
        catch (RoleManagement.replace_roles o user_id new_roles acting_admin none)
          (λ e. raise (roles_error e))
    pure (user_id, map (λ a. a.role) assignments)

  -- `PUT /roles/{user_id}`
  unfoldable pub update_user_role : Uuid → Uuid → List String → M (Uuid × List String)
  update_user_role user user_id new_roles = do
    acting_user ← require_permission o user "roles" "manage"
    assignments ←
        catch (RoleManagement.replace_roles o user_id new_roles acting_user none)
          (λ e. raise (roles_error e))
    pure (user_id, map (λ a. a.role) assignments)
