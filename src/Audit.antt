-- ===== src/Audit.antt =====
-- backend/app/services/audit_log.py: `record`, with the arguments that its callers give, and
-- `list_events`.
use document_classifier_week.Prelude.{
  ℕ, String, ◌<>◌, Bool, false, not, Option, none, some, List, map, ◌==◌, string_eq, ◌&&◌,
  if◌then◌else◌,
}
use document_classifier_week.Models.{Uuid, Details, AuditEvent}
use document_classifier_week.Session.{Outside, M, pure, ◌>>=◌}
use document_classifier_week.Repositories.AuditEvents

-- `AuditEventRead`, without its identifier and timestamp
pub record AuditEventRead : Type 0 where
  pub actor_id : Option Uuid
  pub action : String
  pub target : Option String
  pub target_type : Option String
  pub target_id : Option String
  pub outcome : String
  pub details : Option Details
  pub request_id : Option String

-- the truth value of an optional text
abbrev is_text : Option String → Bool
is_text none = false
is_text (some s) = not (s == "")

abbrev text_of : Option String → String
text_of none = ""
text_of (some s) = s

abbrev pub target_of : Option String → Option String → Option String
target_of target_type target_id =
    if is_text target_type && is_text target_id
    then some (text_of target_type <> (":" <> text_of target_id))
    else (if is_text target_type
        then target_type
        else (if is_text target_id then target_id else none))

abbrev pub to_read_model : AuditEvent → AuditEventRead
to_read_model event = record {
  actor_id = event.actor_user_id;
  action = event.action;
  target = target_of event.target_type event.target_id;
  target_type = event.target_type;
  target_id = event.target_id;
  outcome = event.outcome;
  details = event.details;
  request_id = event.request_id;
}

module _ (o : Outside) where
  -- The service flushes, and its callers commit.
  unfoldable pub record_event :
      String
      → String
      → Option Uuid
      → Option String
      → Option String
      → Option Details
      → Option String
      → M AuditEvent
  record_event action outcome actor_user_id target_type target_id details request_id =
      AuditEvents.create o (record {
        actor_user_id = actor_user_id;
        action = action;
        target_type = target_type;
        target_id = target_id;
        outcome = outcome;
        details = details;
        request_id = request_id;
      })

  unfoldable pub list_events :
      Option Uuid → Option String → Option String → Option String → ℕ → ℕ → M (List AuditEventRead)
  list_events actor_user_id action target_type target_id limit offset = do
    events ← AuditEvents.list o actor_user_id action target_type target_id limit offset
    pure (map to_read_model events)
