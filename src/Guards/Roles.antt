-- ===== src/Guards/Roles.antt =====
-- The active roles after `replace_roles`.
pub mod Parts
pub mod Effects
pub mod Revoked
pub mod Revoking
use document_classifier_week.Prelude.{
  ◌≡◌, refl, sym, ◌∙◌, ap, String, Bool, true, false, Option, none, List, [], ◌∷◌, map, ◌==◌,
  nat_eq, inl, inr, Bool-cases, arith, str, not, contains, string_eq, select, rewrite,
  select-rewrite_self, select-rewrite_other, if◌then◌else◌,
}
use document_classifier_week.Models.{
  Uuid, Time, Change, apply, RoleAssignment, Details, is_active_of, as_revoked,
}
use document_classifier_week.Session.{
  Outside, value_error, PolicyCall, add_role_for_user, delete_roles_for_user, World, ok, step,
  uuid4, for_each,
}
use document_classifier_week.Session.Ensures.{
  Ensures, Ensures-pure, Ensures-bind, Ensures-write, Ensures-statement, Ensures-now,
  Ensures-rows_at, Ensures-commit, Ensures-guard,
}
use document_classifier_week.Repositories.Roles
use document_classifier_week.Authorization
use document_classifier_week.Cache.Effects.{user_roles-IsHarmless}
use document_classifier_week.RoleManagement.{
  valid_roles, require_admin, validate_role, new_assignment, audit_change, assign_each,
  replace_roles,
}
use document_classifier_week.Guards.Steps.{
  Ensures-require_permission, Ensures-record, Ensures-or_warn, Ensures-uuid4,
}
use document_classifier_week.Guards.Roles.Parts.{
  active, pushed, replaced, active-add, revoked-inactive, other-inactive, active-revoked,
  is_active_new, Ensures-tell, Ensures-new_assignment, Ensures-create, Ensures-assign_each,
}

module _ (o : Outside) where
  Ensures-revoke_all :
      (user other : Uuid) (w : World)
      → Ensures w (Roles.revoke_all_for_user o user) (λ a v.
        active other v.db.role_assignments
        ≡ replaced user other [] (active other w.db.role_assignments))
  unfolding Roles.revoke_all_for_user Roles.get_active_roles apply
  Ensures-revoke_all user other w =
      Ensures-bind
        (Ensures-rows_at o
          (λ t db. o.in_any_order t (select (is_active_of user) db.role_assignments)) w)
        (λ xs w1 (read, e1). Ensures-bind (Ensures-now o w1) (λ t w2 e2.
          Ensures-bind (Ensures-write (Change.revoke_roles_of user t) w2) (λ _ w3 e3. record {
            at = λ a v h.
                ap (λ x. active other x.db.role_assignments)
                  ((Ensures-statement o w3).at a v h ∙ ap step e3)
                ∙ active-revoked t user other w2.db.role_assignments
                ∙ ap (λ x. replaced user other [] (active other x.db.role_assignments))
                    (e2 ∙ ap step e1);
          })))

  Ensures-validate_roles :
      (roles : List String) (w : World)
      → Ensures w (for_each roles (validate_role o)) (λ a v. v ≡ w)
  unfolding for_each validate_role
  Ensures-validate_roles [] w = Ensures-pure tt w refl
  Ensures-validate_roles (role ∷ roles) w =
      Ensures-guard (not (contains role valid_roles)) value_error
        (λ _. for_each roles (validate_role o)) (λ valid. Ensures-validate_roles roles w)

  pub Ensures-audit_change :
      (action : String) (user admin : Uuid) (details : Details) (request_id : Option String)
      (w : World)
      → Ensures w
          (audit_change o action user admin details request_id)
          (λ a v. v.db.role_assignments ≡ w.db.role_assignments)
  unfolding audit_change apply
  Ensures-audit_change action user admin details request_id w =
      Ensures-bind (Ensures-record o _ _ _ _ _ _ _ w)
        (λ _ w1 e1. Ensures-pure tt w1 (ap (λ x. x.db.role_assignments) e1))

  pub Ensures-replace_roles :
      (user : Uuid) (roles : List String) (admin other : Uuid) (request_id : Option String)
      (w : World)
      → Ensures w (replace_roles o user roles admin request_id) (λ a v.
        active other v.saved.role_assignments
        ≡ replaced user other (pushed roles []) (active other w.db.role_assignments))
  unfolding replace_roles require_admin Authorization.remove_roles_for_user
  Ensures-replace_roles user roles admin other request_id w =
      Ensures-bind (Ensures-require_permission o admin "roles" "manage" w) (λ _ w1 (allowed, e1).
        Ensures-bind (Ensures-validate_roles roles w1) (λ _ w2 e2.
          Ensures-bind (Ensures-revoke_all user other w2) (λ _ w3 e3.
            Ensures-bind (Ensures-tell o (delete_roles_for_user (str user)) w3) (λ _ w4 e4.
              Ensures-bind (Ensures-assign_each o roles user admin other (user == other) w4 refl)
                (λ made w5 e5.
                  Ensures-bind (Ensures-audit_change _ user admin _ request_id w5) (λ _ w6 e6.
                    Ensures-bind (Ensures-commit o w6) (λ _ w7 e7.
                      Ensures-bind (Ensures-or_warn o _ (user_roles-IsHarmless o user) w7)
                        (λ _ w8 e8. Ensures-pure made w8 (
                          ap (λ db. active other db.role_assignments) (e8 ∙ ap (λ x. x.saved) e7)
                          ∙ ap (active other) e6
                          ∙ combine (user == other) (active other w.db.role_assignments) e5 (
                              ap (λ db. active other db.role_assignments) e4
                              ∙ e3
                              ∙ ap
                                  (λ x. replaced user other [] (active other x.db.role_assignments))
                                  (e2 ∙ e1)))))))))))
    where
      combine :
          (b : Bool) (base : List String) {xs ys : List String}
          → xs ≡ (if b then pushed roles ys else ys)
          → ys ≡ (if b then [] else base)
          → xs ≡ (if b then pushed roles [] else base)
      combine true base e e' = e ∙ ap (pushed roles) e'
      combine false base e e' = e ∙ e'

  -- If `replace_roles` returns, then the committed active roles of the user are exactly those of the
  -- list, the last one newest, and the active roles of every other user are what the session saw
  -- before.
  pub replace_roles-returns :
      (user : Uuid) (roles : List String) (admin other : Uuid) (request_id : Option String)
      (w : World) (made : List RoleAssignment) (v : World)
      → replace_roles o user roles admin request_id w ≡ (ok made, v)
      → active other v.saved.role_assignments
        ≡ replaced user other (pushed roles []) (active other w.db.role_assignments)
  replace_roles-returns user roles admin other request_id w made v h =
      (Ensures-replace_roles user roles admin other request_id w).at made v h
