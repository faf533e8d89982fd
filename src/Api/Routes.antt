-- ===== src/Api/Routes.antt =====
-- The routes that ask for a permission, with the arguments of a request, and their handlers.
use document_classifier_week.Prelude.{ℕ, String, Bool, Option, List}
use document_classifier_week.Models.{Uuid}
use document_classifier_week.Session.{Outside, M, pure, ◌>>=◌}
use document_classifier_week.Api.Predictions
use document_classifier_week.Api.Predictions.{ReviewPredictionRequest}
use document_classifier_week.Api.Users
use document_classifier_week.Api.Batches
use document_classifier_week.Api.AuditEvents

pub data Route : Type 0 where
  list_recent_predictions : Option Bool → ℕ → ℕ → Route
  get_prediction get_prediction_overlay : Uuid → Route
  relabel_prediction : Route
  review_prediction : Uuid → ReviewPredictionRequest → Route
  list_users : Route
  invite_user : String → Route
  replace_user_roles update_user_role : Uuid → List String → Route
  list_batches : Route
  get_batch : Uuid → Route
  list_audit_events : Option Uuid → Option String → Option String → Option String → ℕ → ℕ → Route

-- the value of the answer is not kept
abbrev answer : {A : Type 0} → M A → M Unit
answer m = m >>= λ a. pure tt

unfoldable pub handle : Outside → Uuid → Route → M Unit
handle o user (list_recent_predictions eligible limit offset) =
    answer (Predictions.list_recent_predictions o user eligible limit offset)
handle o user (get_prediction id) = answer (Predictions.get_prediction o user id)
handle o user (get_prediction_overlay id) = answer (Predictions.get_prediction_overlay o user id)
handle o user relabel_prediction = answer (Predictions.relabel_prediction o user)
handle o user (review_prediction id request) =
    answer (Predictions.review_prediction o user id request)
handle o user list_users = answer (Users.list_users o user)
handle o user (invite_user email) = answer (Users.invite_user o user email)
handle o user (replace_user_roles id roles) = answer (Users.replace_user_roles o user id roles)
handle o user (update_user_role id roles) = answer (Users.update_user_role o user id roles)
handle o user list_batches = answer (Batches.list_batches o user)
handle o user (get_batch id) = answer (Batches.get_batch o user id)
handle o user (list_audit_events actor action type id limit offset) =
    answer (AuditEvents.list_audit_events o user actor action type id limit offset)
