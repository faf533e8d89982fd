-- ===== src/Guards/Refinement.antt =====
-- The operations on roles implement their effects on the number of grants of each role.
mod Assigning
use document_classifier_week.Guards.Refinement.Assigning.{Ensures-raise_if, Ensures-assign_role}
use document_classifier_week.Prelude.{
  ℕ, IsReordering, ◌≡◌, refl, sym, ◌∙◌, ap, subst, String, Bool, true, false, Option, none, some,
  List, ◌∷◌, ◌==◌, nat_eq, string_eq, inl, inr, Bool-cases, arith, str, select, if◌then◌else◌,
}
use document_classifier_week.Models.{Uuid, RoleAssignment, is_active_of}
use document_classifier_week.Session.{
  Outside, Error, PolicyCall, World, M, raise_if, step, pure, ◌>>=◌, ◌>>◌, value_error,
  delete_role_for_user, add_role_for_user,
}
use document_classifier_week.Session.Ensures.{
  Ensures, Ensures-pure, Ensures-raise, Ensures-bind, Ensures-rows_at, Ensures-commit,
  Ensures-scalar, to_list,
}
use document_classifier_week.Repositories.Roles
use document_classifier_week.Repositories.Roles.{is_active_role}
use document_classifier_week.Authorization
use document_classifier_week.Cache.Effects.{user_roles-IsHarmless}
use document_classifier_week.RoleManagement.{
  require_admin, validate_role, first_with_role, grant, assign_role, revoke_target, revoke_role,
  replace_roles,
}
use document_classifier_week.Guards.Steps.{Ensures-require_permission, Ensures-or_warn}
use document_classifier_week.Guards.Roles.{Ensures-audit_change, Ensures-replace_roles}
use document_classifier_week.Guards.Roles.Parts.{
  active, active-add, is_active_new, Ensures-tell, Ensures-new_assignment, Ensures-create,
}
use document_classifier_week.Guards.Roles.Effects.{
  RoleOp, times, effect, times-replaced, Implements,
}
use document_classifier_week.Guards.Roles.Revoking.{Ensures-revoke}

module _ (o : Outside) (reorders : (t : ℕ) → IsReordering (o.in_any_order t)) where
  Ensures-revoke_target :
      (t : Option RoleAssignment) (user : Uuid) (role : String) (admin other : Uuid) (name : String)
      (request_id : Option String) (w : World) (n : ℕ)
      → first_with_role role (o.in_any_order n (select (is_active_of user) w.db.role_assignments))
        ≡ t
      → Ensures w
          (revoke_target o t user role admin request_id)
          (λ a v. Implements (RoleOp.revoke user role) other name w v)
  unfolding revoke_target Authorization.remove_role
  Ensures-revoke_target none user role admin other name request_id w n h =
      Ensures-raise value_error w
  Ensures-revoke_target (some t) user role admin other name request_id w n h =
      Ensures-bind (Ensures-revoke o user role t other name w (o.in_any_order n) (reorders n) h)
        (λ _ w1 e1.
          Ensures-bind (Ensures-tell o (delete_role_for_user (str user) role) w1) (λ _ w2 e2.
            Ensures-bind (Ensures-audit_change o _ user admin _ request_id w2) (λ _ w3 e3.
              Ensures-bind (Ensures-commit o w3) (λ _ w4 e4. record {
                at = λ a v f.
                    ap (λ db. times name (active other db.role_assignments))
                      ((Ensures-or_warn o _ (user_roles-IsHarmless o user) w4).at a v f
                        ∙ ap (λ x. x.saved) e4)
                    ∙ ap (λ xs. times name (active other xs)) e3
                    ∙ ap (λ db. times name (active other db.role_assignments)) e2
                    ∙ e1;
              }))))

  Ensures-revoke_role :
      (user : Uuid) (role : String) (admin other : Uuid) (name : String)
      (request_id : Option String) (w : World)
      → Ensures w
          (revoke_role o user role admin request_id)
          (λ a v. Implements (RoleOp.revoke user role) other name w v)
  unfolding revoke_role require_admin validate_role Roles.get_active_roles
  Ensures-revoke_role user role admin other name request_id w =
      Ensures-bind (Ensures-require_permission o admin "roles" "manage" w) (λ _ w1 (_, e1).
        Ensures-bind (Ensures-raise_if o _ value_error w1) (λ _ w2 e2.
          Ensures-bind
            (Ensures-rows_at o
              (λ t db. o.in_any_order t (select (is_active_of user) db.role_assignments)) w2)
            (λ xs w3 (read, e3). record {
              at = λ a v h.
                  (Ensures-revoke_target (first_with_role role xs) user role admin other name
                      request_id w3 w2.tick
                      (ap
                          (λ x. first_with_role role (
                            o.in_any_order w2.tick
                              (select (is_active_of user) x.db.role_assignments)))
                          e3
                        ∙ sym (ap (first_with_role role) read))).at
                    a v h
                  ∙ ap
                      (λ x.
                        effect (RoleOp.revoke user role) other name
                          (times name (active other x.db.role_assignments)))
                      (e3 ∙ ap step (e2 ∙ e1));
            })))

module _ (o : Outside) where
  -- an operation of an administrator, without its value
  abbrev pub perform : RoleOp → Uuid → Option String → M Unit
  perform (RoleOp.assign user role) admin request_id =
      assign_role o user role admin request_id >>= λ a. pure tt
  perform (RoleOp.revoke user role) admin request_id =
      revoke_role o user role admin request_id >>= λ a. pure tt
  perform (RoleOp.replace user roles) admin request_id =
      replace_roles o user roles admin request_id >>= λ a. pure tt

  Ensures-dropped :
      {A : Type 0} {m : M A} {w : World} {Q : World → Type 0}
      → Ensures w m (λ a v. Q v)
      → Ensures w (m >>= λ a. pure tt) (λ a v. Q v)
  Ensures-dropped h = Ensures-bind h (λ a v q. Ensures-pure tt v q)

  -- An operation that returns, in a session without pending changes, implements its effect: the
  -- committed roles of every user are those of the specification.
  pub perform-Implements :
      (op : RoleOp) (admin other : Uuid) (name : String) (request_id : Option String) (w : World)
      → ((t : ℕ) → IsReordering (o.in_any_order t))
      → w.saved ≡ w.db
      → Ensures w (perform op admin request_id) (λ a v. Implements op other name w v)
  perform-Implements (RoleOp.assign user role) admin other name request_id w reorders clean =
      Ensures-dropped {m = assign_role o user role admin request_id}
        (Ensures-assign_role o user role admin other name request_id w clean)
  perform-Implements (RoleOp.revoke user role) admin other name request_id w reorders clean =
      Ensures-dropped {m = revoke_role o user role admin request_id}
        (Ensures-revoke_role o reorders user role admin other name request_id w)
  perform-Implements (RoleOp.replace user roles) admin other name request_id w reorders clean =
      Ensures-dropped {m = replace_roles o user roles admin request_id} (record {
        at = λ a v h.
            ap (times name) ((Ensures-replace_roles o user roles admin other request_id w).at a v h)
            ∙ times-replaced user roles other name (active other w.db.role_assignments);
      })
