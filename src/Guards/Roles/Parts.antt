-- ===== src/Guards/Roles/Parts.antt =====
-- The parts of `replace_roles`: which roles are active after a revocation and after each grant.
use document_classifier_week.Prelude.{
  ◌≡◌, refl, sym, ◌∙◌, ap, String, Bool, true, false, none, List, [], ◌∷◌, map, ◌==◌, nat_eq, inl,
  inr, Bool-cases, arith, str, string_eq, select, rewrite, select-rewrite_self,
  select-rewrite_other, if◌then◌else◌,
}
use document_classifier_week.Models.{
  Uuid, Time, Change, apply, RoleAssignment, is_active_of, as_revoked,
}
use document_classifier_week.Session.{Outside, PolicyCall, add_role_for_user, World}
use document_classifier_week.Session.Ensures.{
  Ensures, Ensures-pure, Ensures-bind, Ensures-write, Ensures-statement, Ensures-now,
}
use document_classifier_week.Repositories.Roles
use document_classifier_week.Authorization
use document_classifier_week.RoleManagement.{new_assignment, assign_each}
use document_classifier_week.Guards.Steps.{Ensures-uuid4}

-- the roles that a user has
abbrev pub active : Uuid → List RoleAssignment → List String
active user assignments = map (λ r. r.role) (select (is_active_of user) assignments)

-- `roles` in front of `base`, the last one first
abbrev pub pushed : List String → List String → List String
pushed [] base = base
pushed (role ∷ roles) base = pushed roles (role ∷ base)

-- the active roles of `other` once those of `user` are `roles`
abbrev pub replaced : Uuid → Uuid → List String → List String → List String
replaced user other roles base = if user == other then roles else base

pub active-add :
    (a : RoleAssignment) (other : Uuid) (b : Bool) (role : String) (rest : List RoleAssignment)
    → is_active_of other a ≡ b
    → a.role ≡ role
    → active other (a ∷ rest) ≡ (if b then role ∷ active other rest else active other rest)
active-add a other true role rest h r = rw (h, if◌then◌else◌, r)
active-add a other false role rest h r = rw (h, if◌then◌else◌)

pub revoked-inactive :
    (t : Time) (user : Uuid) (r : RoleAssignment) → is_active_of user (as_revoked t r) ≡ false
revoked-inactive t user r = ground arith

pub other-inactive :
    (user other : Uuid) (r : RoleAssignment)
    → (user == other) ≡ false
    → is_active_of user r ≡ true
    → is_active_of other r ≡ false
other-inactive user other r e h = ground arith

pub active-revoked :
    (t : Time) (user other : Uuid) (rest : List RoleAssignment)
    → active other (rewrite (is_active_of user) (as_revoked t) rest)
      ≡ replaced user other [] (active other rest)
active-revoked t user other rest = elim (Bool-cases (user == other)) [
  | inl e ↦
      let same = (nat_eq.test_iff user other).0 e in
      rw (e, if◌then◌else◌, sym same)
        (ap (map (λ r. r.role)) (
          select-rewrite_self (is_active_of user) (as_revoked t) (λ r h. revoked-inactive t user r)
            rest))
  | inr e ↦
      rw (e, if◌then◌else◌)
        (ap (map (λ r. r.role)) (
          select-rewrite_other (is_active_of user) (as_revoked t) (is_active_of other)
            (λ r h. (other-inactive user other r e h, revoked-inactive t other r)) rest))
]

pub is_active_new :
    (a : RoleAssignment) (user other : Uuid)
    → a.user_id ≡ user
    → a.revoked_at ≡ none
    → is_active_of other a ≡ (user == other)
is_active_new a user other u n = ground arith

module _ (o : Outside) where
  -- the session's tables stay
  pub Ensures-tell :
      (c : PolicyCall) (w : World) → Ensures w (Authorization.tell o c) (λ a v. v.db ≡ w.db)
  unfolding Authorization.tell
  Ensures-tell c w = record { at = λ a v h. ground arith }

  pub Ensures-new_assignment :
      (user : Uuid) (role : String) (admin : Uuid) (w : World)
      → Ensures w
          (new_assignment o user role admin)
          (λ a v. (v.db ≡ w.db) × (a.user_id ≡ user) × (a.role ≡ role) × (a.revoked_at ≡ none))
  unfolding new_assignment
  Ensures-new_assignment user role admin w = Ensures-bind (Ensures-uuid4 o w) (λ id w1 e1.
      Ensures-bind (Ensures-now o w1)
        (λ t w2 e2. Ensures-pure _ w2 (ap (λ x. x.db) e2 ∙ e1, refl, refl, refl)))

  pub Ensures-create :
      (a : RoleAssignment) (w : World)
      → Ensures w (Roles.create o a) (λ b v. v.db.role_assignments ≡ a ∷ w.db.role_assignments)
  unfolding Roles.create apply
  Ensures-create a w = Ensures-bind (Ensures-write (Change.add_role a) w) (λ _ w1 e1.
      Ensures-bind (Ensures-statement o w1) (λ _ w2 e2.
        Ensures-pure a w2
          (ap (λ x. x.db.role_assignments) e2 ∙ ap (λ x. x.db.role_assignments) e1)))

  pub Ensures-assign_each :
      (roles : List String) (user admin other : Uuid) (b : Bool) (w : World)
      → (user == other) ≡ b
      → Ensures w (assign_each o roles user admin) (λ made v. active other v.db.role_assignments ≡ (
          if b
          then pushed roles (active other w.db.role_assignments)
          else active other w.db.role_assignments))
  unfolding assign_each Authorization.assign_role
  Ensures-assign_each [] user admin other true w h = Ensures-pure [] w refl
  Ensures-assign_each [] user admin other false w h = Ensures-pure [] w refl
  Ensures-assign_each (role ∷ roles) user admin other b w h =
      Ensures-bind (Ensures-new_assignment user role admin w)
        (λ a w1 (e1, is_user, is_role, is_new). Ensures-bind (Ensures-create a w1) (λ _ w2 e2.
          Ensures-bind (Ensures-tell (add_role_for_user (str user) role) w2) (λ _ w3 e3.
            let added =
              ap (λ db. active other db.role_assignments) e3
              ∙ ap (active other) e2
              ∙ active-add a other b role w1.db.role_assignments
                  (is_active_new a user other is_user is_new ∙ h) is_role
              ∙ ap
                  (λ db.
                    if b
                    then role ∷ active other db.role_assignments
                    else active other db.role_assignments)
                  e1 in
            Ensures-bind (Ensures-assign_each roles user admin other b w3 h)
              (λ made w4 e4. Ensures-pure _ w4 (e4 ∙ push b added)))))
    where
      push :
          (b : Bool) {xs : List String}
          → xs ≡ (
              if b
              then role ∷ active other w.db.role_assignments
              else active other w.db.role_assignments)
          → (if b then pushed roles xs else xs) ≡ (
              if b
              then pushed (role ∷ roles) (active other w.db.role_assignments)
              else active other w.db.role_assignments)
      push true e = ap (pushed roles) e
      push false e = e
