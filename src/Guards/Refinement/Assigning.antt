-- ===== src/Guards/Refinement/Assigning.antt =====
-- `assign_role` implements its effect: a role that the user does not have is granted once.
use document_classifier_week.Prelude.{
  ◌≡◌, refl, sym, ◌∙◌, ap, String, Bool, true, false, Option, none, some, List, ◌∷◌, ◌==◌, nat_eq,
  string_eq, inl, inr, Bool-cases, arith, str, length, select, if◌then◌else◌,
}
use document_classifier_week.Models.{Uuid, RoleAssignment}
use document_classifier_week.Session.{
  Outside, Error, PolicyCall, World, raise_if, step, pure, ◌>>◌, value_error, add_role_for_user,
}
use document_classifier_week.Session.Ensures.{
  Ensures, Ensures-pure, Ensures-raise, Ensures-bind, Ensures-rows, Ensures-commit, Ensures-scalar,
  to_list,
}
use document_classifier_week.Repositories.Roles
use document_classifier_week.Repositories.Roles.{is_active_role}
use document_classifier_week.Authorization
use document_classifier_week.Cache.Effects.{user_roles-IsHarmless}
use document_classifier_week.RoleManagement.{require_admin, validate_role, grant, assign_role}
use document_classifier_week.Guards.Steps.{Ensures-require_permission, Ensures-or_warn}
use document_classifier_week.Guards.Roles.{Ensures-audit_change}
use document_classifier_week.Guards.Roles.Parts.{
  active, active-add, is_active_new, Ensures-tell, Ensures-new_assignment, Ensures-create,
}
use document_classifier_week.Guards.Roles.Effects.{RoleOp, times, effect, times-same, Implements}

module _ (o : Outside) where
  pub Ensures-raise_if :
      (b : Bool) (e : Error) (w : World) → Ensures w (raise_if b e) (λ a v. v ≡ w)
  Ensures-raise_if true e w = Ensures-raise e w
  Ensures-raise_if false e w = Ensures-pure tt w refl

  -- the roles of `other` once `user` has one more
  abbrev granted : Uuid → String → Uuid → List String → List String
  granted user role other base = if user == other then role ∷ base else base

  Ensures-grant :
      (user : Uuid) (role : String) (admin other : Uuid) (request_id : Option String) (w : World)
      → Ensures w (grant o user role admin request_id) (λ a v.
        active other v.saved.role_assignments
        ≡ granted user role other (active other w.db.role_assignments))
  unfolding grant Authorization.assign_role
  Ensures-grant user role admin other request_id w =
      Ensures-bind (Ensures-new_assignment o user role admin w)
        (λ a w1 (e1, is_user, is_role, is_new). Ensures-bind (Ensures-create o a w1) (λ _ w2 e2.
          Ensures-bind (Ensures-tell o (add_role_for_user (str user) role) w2) (λ _ w3 e3.
            Ensures-bind (Ensures-audit_change o _ user admin _ request_id w3) (λ _ w4 e4.
              Ensures-bind (Ensures-commit o w4) (λ _ w5 e5.
                Ensures-bind (Ensures-or_warn o _ (user_roles-IsHarmless o user) w5) (λ _ w6 e6.
                  Ensures-pure _ w6 (
                    ap (λ db. active other db.role_assignments) (e6 ∙ ap (λ x. x.saved) e5)
                    ∙ ap (active other) e4
                    ∙ ap (λ db. active other db.role_assignments) e3
                    ∙ ap (active other) e2
                    ∙ active-add a other (user == other) role w1.db.role_assignments
                        (is_active_new a user other is_user is_new) is_role
                    ∙ ap (λ db. granted user role other (active other db.role_assignments))
                        e1)))))))

  -- the answer of `has_active_role`, and how many rows it stands for
  Ensures-has_active_role :
      (user : Uuid) (role : String) (w : World)
      → Ensures w (Roles.has_active_role o user role) (λ b v.
        (length (select (is_active_role user role) w.db.role_assignments) ≡ (if b then 1 else 0))
        × (v ≡ step w))
  unfolding Roles.has_active_role
  Ensures-has_active_role user role w =
      Ensures-bind (Ensures-rows o (λ db. select (is_active_role user role) db.role_assignments) w)
        (λ xs w1 (read, e1).
          Ensures-bind (Ensures-scalar xs w1)
            (λ row w2 (e2, found). answer row w2 (e2 ∙ e1) (sym read ∙ found)))
    where
      answer :
          (row : Option RoleAssignment) (w1 : World)
          → w1 ≡ step w
          → select (is_active_role user role) w.db.role_assignments ≡ to_list row
          → Ensures w1 (pure (elim row [ none ↦ false | some r ↦ true ])) (λ b v.
            (length (select (is_active_role user role) w.db.role_assignments)
              ≡ (if b then 1 else 0))
            × (v ≡ step w))
      answer none w1 e1 found = Ensures-pure false w1 (ap length found, e1)
      answer (some r) w1 e1 found = Ensures-pure true w1 (ap length found, e1)

  kept :
      (user : Uuid) (role : String) (other : Uuid) (name : String) (xs : List RoleAssignment)
      → length (select (is_active_role user role) xs) ≡ 1
      → effect (RoleOp.assign user role) other name (times name (active other xs))
        ≡ times name (active other xs)
  kept user role other name xs h = elim (Bool-cases (user == other)) [
    | inr e ↦ rw (e, if◌then◌else◌) refl
    | inl e ↦ elim (Bool-cases (role == name)) [
      | inr g ↦ rw (e, g, if◌then◌else◌) refl
      | inl g ↦
          let n = times-same user other role name xs e g ∙ h in rw (e, g, if◌then◌else◌, n) refl
    ]
  ]

  extended :
      (user : Uuid) (role : String) (other : Uuid) (name : String) (xs : List RoleAssignment)
      → length (select (is_active_role user role) xs) ≡ 0
      → times name (granted user role other (active other xs))
        ≡ effect (RoleOp.assign user role) other name (times name (active other xs))
  extended user role other name xs h = elim (Bool-cases (user == other)) [
    | inr e ↦ rw (e, if◌then◌else◌) refl
    | inl e ↦ elim (Bool-cases (role == name)) [
      | inr g ↦ rw (e, g, if◌then◌else◌) refl
      | inl g ↦
          let n = times-same user other role name xs e g ∙ h in rw (e, g, if◌then◌else◌, n) refl
    ]
  ]

  Ensures-tell_saved :
      (c : PolicyCall) (w : World) → Ensures w (Authorization.tell o c) (λ a v. v.saved ≡ w.saved)
  unfolding Authorization.tell
  Ensures-tell_saved c w = record { at = λ a v h. ground arith }

  Ensures-assigned :
      (b : Bool) (user : Uuid) (role : String) (admin other : Uuid) (name : String)
      (request_id : Option String) (w : World)
      → w.saved ≡ w.db
      → length (select (is_active_role user role) w.db.role_assignments) ≡ (if b then 1 else 0)
      → Ensures w
          (if b
            then Authorization.assign_role o user role >> pure none
            else grant o user role admin request_id)
          (λ a v. Implements (RoleOp.assign user role) other name w v)
  unfolding Authorization.assign_role
  Ensures-assigned true user role admin other name request_id w clean h =
      Ensures-bind (Ensures-tell_saved (add_role_for_user (str user) role) w) (λ _ w1 e1.
        Ensures-pure none w1 (
          ap (λ db. times name (active other db.role_assignments)) (e1 ∙ clean)
          ∙ sym (kept user role other name w.db.role_assignments h)))
  Ensures-assigned false user role admin other name request_id w clean h = record {
    at = λ a v f.
        ap (times name) ((Ensures-grant user role admin other request_id w).at a v f)
        ∙ extended user role other name w.db.role_assignments h;
  }

  pub Ensures-assign_role :
      (user : Uuid) (role : String) (admin other : Uuid) (name : String)
      (request_id : Option String) (w : World)
      → w.saved ≡ w.db
      → Ensures w
          (assign_role o user role admin request_id)
          (λ a v. Implements (RoleOp.assign user role) other name w v)
  unfolding assign_role require_admin validate_role
  Ensures-assign_role user role admin other name request_id w clean =
      Ensures-bind (Ensures-require_permission o admin "roles" "manage" w) (λ _ w1 (_, e1).
        Ensures-bind (Ensures-raise_if _ value_error w1) (λ _ w2 e2.
          Ensures-bind (Ensures-has_active_role user role w2) (λ b w3 (asked, e3). record {
            at = λ a v h.
                let same = e3 ∙ ap step (e2 ∙ e1) in
                (Ensures-assigned b user role admin other name request_id w3
                    (ap (λ x. x.saved) same ∙ clean ∙ sym (ap (λ x. x.db) same))
                    (ap (λ x. length (select (is_active_role user role) x.db.role_assignments)) e3
                      ∙ asked)).at
                  a v h
                ∙ ap
                    (λ x.
                      effect (RoleOp.assign user role) other name
                        (times name (active other x.db.role_assignments)))
                    same;
          })))
