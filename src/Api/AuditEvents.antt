-- ===== src/Api/AuditEvents.antt =====
-- backend/app/api/audit.py
use document_classifier_week.Prelude.{ℕ, String, Option, List}
use document_classifier_week.Models.{Uuid}
use document_classifier_week.Session.{Outside, M, ◌>>◌}
use document_classifier_week.Audit.{AuditEventRead, list_events}
use document_classifier_week.Api.Dependencies.{require_permission, check_limit}

module _ (o : Outside) where
  unfoldable pub list_audit_events :
      Uuid
      → Option Uuid
      → Option String
      → Option String
      → Option String
      → ℕ
      → ℕ
      → M (List AuditEventRead)
  list_audit_events user actor_user_id action target_type target_id limit offset = do
    require_permission o user "audit_logs" "read"
    check_limit limit
    list_events o actor_user_id action target_type target_id limit offset
