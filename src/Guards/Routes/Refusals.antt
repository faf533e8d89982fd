-- ===== src/Guards/Routes/Refusals.antt =====
-- A caller without the permission that a route requires gets a 403, and nothing else happens.
use document_classifier_week.Prelude.{◌≡◌, String, ◌⊎◌}
use document_classifier_week.Session.{casbin_error, http_exception, World, M, err, step}
use document_classifier_week.Authorization
use document_classifier_week.Api.Predictions
use document_classifier_week.Api.Users
use document_classifier_week.Api.Batches
use document_classifier_week.Api.AuditEvents
use document_classifier_week.Api.Routes.{
  Route, list_recent_predictions, get_prediction, get_prediction_overlay, relabel_prediction,
  review_prediction, list_users, invite_user, replace_user_roles, update_user_role, list_batches,
  get_batch, list_audit_events,
}

-- what each route is for: a resource and an action on it
abbrev pub required : Route → String × String
required (list_recent_predictions eligible limit offset) = ("predictions", "read")
required (get_prediction id) = ("predictions", "read")
required (get_prediction_overlay id) = ("predictions", "read")
required relabel_prediction = ("predictions", "relabel")
required (review_prediction id request) = ("predictions", "relabel")
required list_users = ("users", "manage")
required (invite_user email) = ("users", "manage")
required (replace_user_roles id roles) = ("roles", "manage")
required (update_user_role id roles) = ("roles", "manage")
required list_batches = ("batches", "read")
required (get_batch id) = ("batches", "read")
required (list_audit_events actor action type id limit offset) = ("audit_logs", "read")

-- The route answers 403, or Casbin's error escapes, and only the clock has moved.
abbrev pub Forbids : {A : Type 0} → M A → World → Type 0
Forbids m w = (m w ≡ (err (http_exception 403), step w)) ⊎ (m w ≡ (err casbin_error, step w))
