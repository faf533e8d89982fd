-- ===== src/UserManagement.antt =====
-- backend/app/services/user_management.py: `list_users` and `invite_user`.
use document_classifier_week.Prelude.{
  ℕ, String, Bool, false, [], ◌∷◌, Option, none, some, List, map, str,
}
use document_classifier_week.Models.{Uuid, User, Details}
use document_classifier_week.Session.{
  Outside, user_invitation_already_exists, M, ok, pure, raise, step, ◌>>=◌, ◌>>◌, uuid4, commit,
}
use document_classifier_week.Repositories.Roles
use document_classifier_week.Repositories.Users
use document_classifier_week.Audit.{record_event}

-- `AdminUserProfile`, without its timestamps
pub record AdminUserProfile : Type 0 where
  pub id : Uuid
  pub email : String
  pub is_active : Bool
  pub is_verified : Bool
  pub roles : List String

module _ (o : Outside) where
  unfoldable pub reject_known : Option User → M Unit
  reject_known none = pure tt
  reject_known (some u) = raise user_invitation_already_exists

  -- bcrypt of `secrets.token_urlsafe(32)`
  unfoldable pub random_password : M String
  random_password w = (ok (o.random_password_hash w.tick), step w)

  unfoldable pub to_admin_profile : User → M AdminUserProfile
  to_admin_profile user = do
    roles ← Roles.get_active_roles o user.id
    pure (record {
      id = user.id;
      email = user.email;
      is_active = user.is_active;
      is_verified = user.is_verified;
      roles = map (λ r. r.role) roles;
    })

  unfoldable pub create_user : String → M User
  create_user normalized_email = do
    id ← uuid4 o
    hashed_password ← random_password
    Users.create o (record {
      id = id;
      email = normalized_email;
      hashed_password = hashed_password;
      is_active = false;
      is_superuser = false;
      is_verified = false;
    })

  unfoldable pub invite_user : String → Uuid → Option String → M AdminUserProfile
  invite_user email acting_admin_id request_id = do
    let normalized_email = o.strip_lower email
    known ← Users.get_by_email o normalized_email
    reject_known known
    user ← create_user normalized_email
    record_event o "user.invited" "success" (some acting_admin_id) (some "user")
        (some (str user.id)) (some (Details.invited normalized_email "not_configured")) request_id
    commit o
    to_admin_profile user

  -- the comprehension over the users
  unfoldable pub to_admin_profiles : List User → M (List AdminUserProfile)
  to_admin_profiles [] = pure []
  to_admin_profiles (user ∷ users) = do
    profile ← to_admin_profile user
    profiles ← to_admin_profiles users
    pure (profile ∷ profiles)

  unfoldable pub list_users : ℕ → ℕ → M (List AdminUserProfile)
  list_users limit offset = do users ← Users.list o limit offset; to_admin_profiles users
