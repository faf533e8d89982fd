-- ===== src/Authorization/Enforcer.antt =====
-- The functions of casbin_enforcer.py, the matcher of rbac_model.conf, and `AuthorizationService`.
use document_classifier_week.Prelude.{
  String, Bool, not, ◌&&◌, List, ◌∷◌, ◌==◌, string_eq, any, str, if◌then◌else◌,
}
use document_classifier_week.Models.{Uuid}
use document_classifier_week.Session.{
  Outside, PolicyCall, add_role_for_user, delete_role_for_user, delete_roles_for_user, casbin_error,
  permission_denied, M, ok, err, step, raise_if, ◌>>=◌,
}

module _ (o : Outside) where
  -- rbac_model.conf: some rule allows, with m = g(r.sub, p.sub) && r.obj == p.obj && r.act == p.act
  unfoldable pub enforce : List PolicyCall → String → String → String → Bool
  enforce h sub obj act = any (λ (s, b, a). o.g h sub s && (obj == b && act == a)) (o.p h)

  -- `load_policy()`, and a change of the rules after it
  unfoldable pub tell : PolicyCall → M Unit
  tell c w =
      if o.casbin_fails w.tick
      then (err casbin_error, step w)
      else (ok tt, record (step w) { policies = c ∷ w.policies })

  -- `load_policy()`, and the question after it
  unfoldable pub can : Uuid → String → String → M Bool
  can user_id obj act w =
      if o.casbin_fails w.tick
      then (err casbin_error, step w)
      else (ok (enforce w.policies (str user_id) obj act), step w)

  unfoldable pub assign_role : Uuid → String → M Unit
  assign_role user_id role = tell (add_role_for_user (str user_id) role)

  unfoldable pub remove_role : Uuid → String → M Unit
  remove_role user_id role = tell (delete_role_for_user (str user_id) role)

  unfoldable pub remove_roles_for_user : Uuid → M Unit
  remove_roles_for_user user_id = tell (delete_roles_for_user (str user_id))

  -- `AuthorizationService.require_permission`
  unfoldable pub require_permission : Uuid → String → String → M Unit
  require_permission user_id obj act = do
    allowed ← can user_id obj act
    raise_if (not allowed) permission_denied
