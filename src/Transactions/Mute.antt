-- ===== src/Transactions/Mute.antt =====
-- Actions that tell the enforcer nothing.
use document_classifier_week.Prelude.{ℕ, ◌≡◌, ◌∙◌, String, Option, List, arith, string_eq}
use document_classifier_week.Models.{Uuid, Db, Change, Details, RoleAssignment}
use document_classifier_week.Session.{
  Outside, PolicyCall, World, M, write, statement, rows, rows_at, uuid4, now, commit, for_each,
}
use document_classifier_week.Session.Keeps.{Keeps, Keeps-for_each, keeps_rules}
use document_classifier_week.Repositories.Roles
use document_classifier_week.Repositories.AuditEvents
use document_classifier_week.Authorization
use document_classifier_week.Audit.{record_event}
use document_classifier_week.Cache.{or_warn}
use document_classifier_week.Cache.Effects.{IsHarmless, or_warn-IsSame}
use document_classifier_week.RoleManagement.{
  require_admin, validate_role, new_assignment, audit_change,
}

-- The enforcer has been told `ps`.
pub record IsTold (ps : List PolicyCall) (w : World) : Type 0 where
  pub eq : w.policies ≡ ps

-- `m` tells the enforcer nothing.
abbrev pub IsMute : {A : Type 0} → M A → Type 0
IsMute m = (ps : List PolicyCall) → Keeps (IsTold ps) m

Mute-write : (c : Change) → IsMute (write c)
unfolding write
Mute-write c ps = record { at = λ w h. record { eq = h.eq } }

pub Mute-or_warn : (m : M Unit) → IsHarmless m → IsMute (or_warn m)
Mute-or_warn m h ps = record {
  at = λ w told. record { eq = (or_warn-IsSame m w h).policies ∙ told.eq };
}

module _ (o : Outside) where
  Mute-statement : IsMute (statement o)
  unfolding statement
  Mute-statement ps = record { at = λ w h. ground arith }

  Mute-rows_at : {A : Type 0} (query : ℕ → Db → List A) → IsMute (rows_at o query)
  unfolding rows_at rows
  Mute-rows_at query ps = record { at = λ w h. ground arith }

  Mute-uuid4 : IsMute (uuid4 o)
  unfolding uuid4
  Mute-uuid4 ps = record { at = λ w h. ground arith }

  Mute-now : IsMute (now o)
  unfolding now
  Mute-now ps = record { at = λ w h. ground arith }

  pub Mute-commit : IsMute (commit o)
  unfolding commit
  Mute-commit ps = record { at = λ w h. ground arith }

  Mute-can : (user : Uuid) (obj act : String) → IsMute (Authorization.can o user obj act)
  unfolding Authorization.can
  Mute-can user obj act ps = record { at = λ w h. ground arith }

ruleset mute = (
  keeps_rules, Mute-write, Mute-statement, Mute-rows_at, Mute-uuid4, Mute-now, Mute-commit,
  Mute-can,
)

module _ (o : Outside) where
  pub Mute-require_admin : (user : Uuid) → IsMute (require_admin o user)
  unfolding require_admin Authorization.require_permission
  Mute-require_admin user ps = search mute depth 8

  pub Mute-validate_roles : (roles : List String) → IsMute (for_each roles (validate_role o))
  unfolding validate_role
  Mute-validate_roles roles ps = search (mute, Keeps-for_each) depth 8

  pub Mute-revoke_all : (user : Uuid) → IsMute (Roles.revoke_all_for_user o user)
  unfolding Roles.revoke_all_for_user Roles.get_active_roles
  Mute-revoke_all user ps = search mute depth 8

  pub Mute-new_assignment :
      (user : Uuid) (role : String) (admin : Uuid) → IsMute (new_assignment o user role admin)
  unfolding new_assignment
  Mute-new_assignment user role admin ps = search mute depth 8

  pub Mute-create : (a : RoleAssignment) → IsMute (Roles.create o a)
  unfolding Roles.create
  Mute-create a ps = search mute depth 8

  pub Mute-audit_change :
      (action : String) (user admin : Uuid) (details : Details) (request_id : Option String)
      → IsMute (audit_change o action user admin details request_id)
  unfolding audit_change record_event AuditEvents.create
  Mute-audit_change action user admin details request_id ps = search mute depth 10
