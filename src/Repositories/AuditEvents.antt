-- ===== src/Repositories/AuditEvents.antt =====
-- backend/app/repositories/audit_events.py
use document_classifier_week.Prelude.{
  ℕ, String, Bool, true, false, ◌&&◌, Option, none, some, List, Eq, ◌==◌, nat_eq, string_eq, select,
  take, drop,
}
use document_classifier_week.Models.{Change, Uuid, AuditEvent}
use document_classifier_week.Session.{Outside, M, pure, write, ◌>>◌, statement, rows_at}

-- `stmt.where(column == value)`, if a value is given; NULL equals nothing
abbrev pub is_given : {A : Type 0} ⦃e : Eq A⦄ → Option A → Option A → Bool
is_given none column = true
is_given (some value) none = false
is_given (some value) (some a) = value == a

abbrev pub is_selected :
    Option Uuid → Option String → Option String → Option String → AuditEvent → Bool
is_selected actor_user_id action target_type target_id e =
    is_given actor_user_id e.actor_user_id
    && (is_given action (some e.action)
        && (is_given target_type e.target_type && is_given target_id e.target_id))

module _ (o : Outside) where
  unfoldable pub create : AuditEvent → M AuditEvent
  create event = do write (Change.add_audit event); statement o; pure event

  unfoldable pub list :
      Option Uuid → Option String → Option String → Option String → ℕ → ℕ → M (List AuditEvent)
  list actor_user_id action target_type target_id limit offset = rows_at o (λ t db. take limit (
      drop offset (
        o.newest_audit_events t
          (select (is_selected actor_user_id action target_type target_id) db.audit_events))))
