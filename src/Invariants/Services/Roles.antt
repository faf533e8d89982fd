-- ===== src/Invariants/Services/Roles.antt =====
-- backend/app/services/role_management.py keeps the tables' properties.
use document_classifier_week.Prelude.{
  ◌≡◌, refl, String, true, not, Option, none, some, List, [], ◌∷◌, string_eq, contains, All, inl,
  inr, Bool-cases,
}
use document_classifier_week.Models.{Uuid, Time, AuditEvent, RoleAssignment, Db, Change, Details}
use document_classifier_week.Session.{
  Outside, Result, ok, err, value_error, for_each, pure, write, statement, ◌>>=◌, uuid4, now,
}
use document_classifier_week.Session.Keeps.{
  Keeps, Given, Returns, Keeps-bind, Keeps-bind_given, Keeps-for_each, Keeps-guard,
}
use document_classifier_week.Session.Tables.{Holds}
use document_classifier_week.Repositories.Roles
use document_classifier_week.Repositories.AuditEvents
use document_classifier_week.Audit.{record_event}
use document_classifier_week.Authorization
use document_classifier_week.Cache.Effects.{user_roles-IsHarmless}
use document_classifier_week.RoleManagement.{
  valid_roles, require_admin, validate_role, new_assignment, audit_change, grant, assign_role,
  revoke_target, revoke_role, assign_each, replace_roles,
}
use document_classifier_week.Invariants.Sound.{IsStable, sound_write, not-false}
use document_classifier_week.Invariants.Leaves.{leaves, Holds-or_warn}

-- A new assignment has the role that it was asked for, and is active.
new_assignment-Returns :
    (o : Outside) (target : Uuid) (role : String) (admin : Uuid)
    → Returns (λ a. (a.role ≡ role) × (a.revoked_at ≡ none)) (new_assignment o target role admin)
unfolding new_assignment uuid4 now
new_assignment-Returns o target role admin = record { at = λ w. (refl, refl) }

Given-and :
    {A : Type 0} (B : Type 0) → A → (r : Result Unit) → Given (λ _. B) r → Given (λ _. A × B) r
Given-and B a (ok u) b = (a, b)
Given-and B a (err e) b = tt

-- Past the loop of `replace_roles`, every name is that of a role.
validated-Returns :
    (o : Outside) (new_roles : List String)
    → Returns
        (λ _. All (λ r. contains r valid_roles ≡ true) new_roles)
        (for_each new_roles (validate_role o))
unfolding for_each validate_role
validated-Returns o [] = record { at = λ w. tt }
validated-Returns o (r ∷ new_roles) = elim (Bool-cases (contains r valid_roles)) [
  | inl v ↦ record {
    at = λ w. rw v (
        Given-and (All (λ r. contains r valid_roles ≡ true) new_roles) refl
          ((for_each new_roles (validate_role o)) w).0 ((validated-Returns o new_roles).at w));
  }
  | inr v ↦ record { at = λ w. rw v tt }
]

module _ (o : Outside) {G : Db → Type 0} (stable : IsStable G) where
  Holds-new_assignment :
      (target : Uuid) (role : String) (admin : Uuid)
      → Keeps (Holds G) (new_assignment o target role admin)
  unfolding new_assignment
  Holds-new_assignment target role admin = search leaves

  Holds-require_admin : (admin : Uuid) → Keeps (Holds G) (require_admin o admin)
  unfolding require_admin Authorization.require_permission
  Holds-require_admin admin = search leaves

  Holds-validate : (role : String) → Keeps (Holds G) (validate_role o role)
  unfolding validate_role
  Holds-validate role = search leaves

  Holds-create :
      (a : RoleAssignment)
      → (contains a.role valid_roles ≡ true) × (a.revoked_at ≡ none)
      → Keeps (Holds G) (Roles.create o a)
  unfolding Roles.create
  Holds-create a v =
      Keeps-bind (write (Change.add_role a)) (λ _. statement o >>= λ _. pure a)
        (sound_write (Change.add_role a) stable v) (λ _. search leaves)

  Holds-revoke_found : (r : Option RoleAssignment) → Keeps (Holds G) (Roles.revoke_found o r)
  unfolding Roles.revoke_found
  Holds-revoke_found none = search leaves
  Holds-revoke_found (some r) =
      search (leaves, λ (t : Time). sound_write (Change.revoke_role r.id t) stable tt)

  Holds-revoke : (id : Uuid) → Keeps (Holds G) (Roles.revoke o id)
  unfolding Roles.revoke Roles.get_by_id
  Holds-revoke id = search (leaves, Holds-revoke_found)

  Holds-revoke_all : (id : Uuid) → Keeps (Holds G) (Roles.revoke_all_for_user o id)
  unfolding Roles.revoke_all_for_user Roles.get_active_roles
  Holds-revoke_all id =
      search (leaves, λ (t : Time). sound_write (Change.revoke_roles_of id t) stable tt)

  Holds-audit_change :
      (action : String) (target admin : Uuid) (details : Details) (request_id : Option String)
      → Keeps (Holds G) (audit_change o action target admin details request_id)
  unfolding audit_change record_event AuditEvents.create
  Holds-audit_change action target admin details request_id =
      search (leaves, λ (e : AuditEvent). sound_write (Change.add_audit e) stable tt)

  Holds-assign :
      (target : Uuid) (role : String) → Keeps (Holds G) (Authorization.assign_role o target role)
  unfolding Authorization.assign_role
  Holds-assign target role = search leaves

  Holds-grant :
      (target : Uuid) (role : String) (admin : Uuid) (request_id : Option String)
      → contains role valid_roles ≡ true
      → Keeps (Holds G) (grant o target role admin request_id)
  unfolding grant
  Holds-grant target role admin request_id v =
      Keeps-bind_given (λ a. (a.role ≡ role) × (a.revoked_at ≡ none))
        (new_assignment o target role admin) _ (Holds-new_assignment target role admin)
        (new_assignment-Returns o target role admin)
        (λ a q.
          let created = Holds-create a (rw (q.0) v, q.1) in
          search (leaves, Holds-assign, Holds-audit_change, Holds-or_warn, user_roles-IsHarmless)
            depth 12)

  Holds-has :
      (target : Uuid) (role : String) → Keeps (Holds G) (Roles.has_active_role o target role)
  unfolding Roles.has_active_role
  Holds-has target role = search leaves

  pub Holds-assign_role :
      (target : Uuid) (role : String) (admin : Uuid) (request_id : Option String)
      → Keeps (Holds G) (assign_role o target role admin request_id)
  unfolding assign_role validate_role
  Holds-assign_role target role admin request_id =
      Keeps-bind (require_admin o admin) _ (Holds-require_admin admin) (λ _.
        Keeps-guard (not (contains role valid_roles)) value_error _ (λ v.
          search
            (
              leaves,
              Holds-assign,
              Holds-has,
              λ (r : Option String). Holds-grant target role admin r (not-false v),
            )
            depth 12))

  Holds-active : (target : Uuid) → Keeps (Holds G) (Roles.get_active_roles o target)
  unfolding Roles.get_active_roles
  Holds-active target = search leaves

  Holds-revoke_target :
      (r : Option RoleAssignment) (target : Uuid) (role : String) (admin : Uuid)
      (request_id : Option String)
      → Keeps (Holds G) (revoke_target o r target role admin request_id)
  unfolding revoke_target Authorization.remove_role
  Holds-revoke_target none target role admin request_id = search leaves
  Holds-revoke_target (some r) target role admin request_id =
      search (leaves, Holds-revoke, Holds-audit_change, Holds-or_warn, user_roles-IsHarmless) depth
        12

  pub Holds-revoke_role :
      (target : Uuid) (role : String) (admin : Uuid) (request_id : Option String)
      → Keeps (Holds G) (revoke_role o target role admin request_id)
  unfolding revoke_role validate_role
  Holds-revoke_role target role admin request_id =
      search (leaves, Holds-require_admin, Holds-active, Holds-revoke_target) depth 12

  Holds-assign_each :
      (new_roles : List String) (target admin : Uuid)
      → All (λ r. contains r valid_roles ≡ true) new_roles
      → Keeps (Holds G) (assign_each o new_roles target admin)
  unfolding assign_each
  Holds-assign_each [] target admin v = search leaves
  Holds-assign_each (role ∷ new_roles) target admin v =
      let rest = Holds-assign_each new_roles target admin v.1 in
      Keeps-bind_given (λ a. (a.role ≡ role) × (a.revoked_at ≡ none))
        (new_assignment o target role admin) _ (Holds-new_assignment target role admin)
        (new_assignment-Returns o target role admin)
        (λ a q.
          let created = Holds-create a (rw (q.0) v.0, q.1) in
          search (leaves, Holds-assign) depth 12)

  pub Holds-replace_roles :
      (target : Uuid) (new_roles : List String) (admin : Uuid) (request_id : Option String)
      → Keeps (Holds G) (replace_roles o target new_roles admin request_id)
  unfolding replace_roles Authorization.remove_roles_for_user
  Holds-replace_roles target new_roles admin request_id =
      Keeps-bind (require_admin o admin) _ (Holds-require_admin admin) (λ _.
        Keeps-bind_given (λ _. All (λ r. contains r valid_roles ≡ true) new_roles)
          (for_each new_roles (validate_role o)) _
          (Keeps-for_each new_roles (validate_role o) (λ r. Holds-validate r))
          (validated-Returns o new_roles)
          (λ _ v.
            let assigned = Holds-assign_each new_roles target admin v in
            search
              (leaves, Holds-revoke_all, Holds-audit_change, Holds-or_warn, user_roles-IsHarmless)
              depth 12))
