-- ===== src/Guards/Roles/Effects.antt =====
-- What the operations on roles are for: how often a user has each role. The table gives its rows in
-- no order, and several grants of one role can be active at once.
use document_classifier_week.Prelude.{
  ℕ, suc, ◌+◌, ◌-◌, ◌≡◌, refl, sym, ◌∙◌, ap, arith, String, true, ◌&&◌, List, [], ◌∷◌, ◌==◌, nat_eq,
  string_eq, inl, inr, Bool-cases, length, select, if◌then◌else◌,
}
use document_classifier_week.Models.{Uuid, RoleAssignment, is_active}
use document_classifier_week.Session.{World}
use document_classifier_week.Repositories.Roles.{is_active_role}
use document_classifier_week.Guards.Roles.Parts.{active, pushed, replaced}

pub data RoleOp : Type 0 where
  assign revoke : Uuid → String → RoleOp
  replace : Uuid → List String → RoleOp

-- how often a name is in a list
abbrev pub times : String → List String → ℕ
times name roles = length (select (λ r. r == name) roles)

-- how often `other` has the role `name` after an operation, when it was `n` times before
abbrev pub effect : RoleOp → Uuid → String → ℕ → ℕ
effect (RoleOp.assign user role) other name n =
    if user == other && role == name then (if n == 0 then 1 else n) else n
effect (RoleOp.revoke user role) other name n = if user == other && role == name then n - 1 else n
effect (RoleOp.replace user roles) other name n = if user == other then times name roles else n

pub times-active :
    (other : Uuid) (name : String) (xs : List RoleAssignment)
    → times name (active other xs) ≡ length (select (is_active_role other name) xs)
times-active other name [] = refl
times-active other name (x ∷ xs) =
    let rest = times-active other name xs in
    elim (Bool-cases (x.user_id == other)) [
      | inr e ↦ rw (e, if◌then◌else◌) rest
      | inl e ↦ elim (Bool-cases (is_active x)) [
        | inr f ↦ elim (Bool-cases (x.role == name)) [
          | inl g ↦ rw (e, f, g, if◌then◌else◌) rest
          | inr g ↦ rw (e, f, g, if◌then◌else◌) rest
        ]
        | inl f ↦ elim (Bool-cases (x.role == name)) [
          | inl g ↦ rw (e, f, g, if◌then◌else◌) (ap suc rest)
          | inr g ↦ rw (e, f, g, if◌then◌else◌) rest
        ]
      ]
    ]

-- the same user and the same role
pub times-same :
    (user other : Uuid) (role name : String) (xs : List RoleAssignment)
    → (user == other) ≡ true
    → (role == name) ≡ true
    → times name (active other xs) ≡ length (select (is_active_role user role) xs)
times-same user other role name xs e g =
    times-active other name xs
    ∙ ap (λ u. length (select (is_active_role u name) xs)) (sym ((nat_eq.test_iff user other).0 e))
    ∙ ap (λ r. length (select (is_active_role user r) xs))
        (sym ((string_eq.test_iff role name).0 g))

times-pushed :
    (name : String) (roles base : List String)
    → times name (pushed roles base) ≡ times name roles + times name base
times-pushed name [] base = omega arith
times-pushed name (r ∷ roles) base =
    let rest = times-pushed name roles (r ∷ base) in
    elim (Bool-cases (r == name)) [
      | inl e ↦ rest ∙ rw (e, if◌then◌else◌) (omega arith)
      | inr e ↦ rest ∙ rw (e, if◌then◌else◌) refl
    ]

pub times-replaced :
    (user : Uuid) (roles : List String) (other : Uuid) (name : String) (base : List String)
    → times name (replaced user other (pushed roles []) base)
      ≡ effect (RoleOp.replace user roles) other name (times name base)
times-replaced user roles other name base = elim (Bool-cases (user == other)) [
  | inl e ↦ rw (e, if◌then◌else◌) (times-pushed name roles [] ∙ add_zero (times name roles))
  | inr e ↦ rw (e, if◌then◌else◌) refl
]
  where
    add_zero : (n : ℕ) → n + 0 ≡ n
    add_zero n = omega arith

-- what is committed has the effect on what the session saw before
abbrev pub Implements : RoleOp → Uuid → String → World → World → Type 0
Implements op other name w v =
    times name (active other v.saved.role_assignments)
    ≡ effect op other name (times name (active other w.db.role_assignments))
