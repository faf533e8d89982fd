-- ===== src/Tests/Routes.antt =====
-- The theorems on the API, at requests.
use document_classifier_week.Prelude.{
  ℕ, ◌≤◌, ◌≡◌, refl, String, true, some, none, List, [], ◌∷◌, length, string_eq, nat_eq, All,
}
use document_classifier_week.Models.{JobStatus, Db, AuditEvent, as_relabelled, apply}
use document_classifier_week.Session.{
  Outside, World, ok, err, http_exception, prediction_not_found, step, statement, rows, rows_at,
  commit, now, write, scalar_one_or_none, for_each,
}
use document_classifier_week.Repositories.AuditEvents
use document_classifier_week.Repositories.Documents
use document_classifier_week.Repositories.Predictions
use document_classifier_week.Audit.{AuditEventRead, record_event, list_events}
use document_classifier_week.Authorization
use document_classifier_week.Authorization.{enforce, baseline_policy_tuples}
use document_classifier_week.Cache.{
  or_warn, delete_cache_key, delete, swallow, try_delete, invalidate_batch_list,
  invalidate_batch_detail, invalidate_prediction_detail, invalidate_audit_list,
  invalidate_after_relabel,
}
use document_classifier_week.PredictionReview.{
  relabel, require_prediction, check_and_apply, apply_label, cache_batch_id, batch_of,
}
use document_classifier_week.Api.Dependencies.{require_permission}
use document_classifier_week.Api.Predictions.{
  ReviewPredictionRequest, PredictionRead, review_prediction, review_as, require_label, read_each,
  read_with_overlay, prediction_to_read, recent, list_recent_predictions,
}
use document_classifier_week.Api.Routes.{Route, handle}
use document_classifier_week.Api.AuditEvents.{list_audit_events}
use document_classifier_week.Guards.Reviews.{IsReviewed}
use document_classifier_week.Guards.Routes.Statuses.{Call, handle-answers}
use document_classifier_week.Guards.Routes.Reviews.{Gives, review_prediction-returns}
use document_classifier_week.Guards.Routes.Pages.{IsSelected, list_audit_events-bounded}
use document_classifier_week.Guards.Routes.Recent.{IsPage, list_recent-IsPage}
use document_classifier_week.Tests.Samples.{outside, world, tables, prediction}

abbrev admin : Outside
admin = outside "admin" 100

abbrev auditor : Outside
auditor = outside "auditor" 100

abbrev request : ReviewPredictionRequest
request = record { reviewed_label = none; corrected_label = some "letter" }

abbrev event : String → AuditEvent
event action = record {
  actor_user_id = some 1;
  action = action;
  target_type = some "user";
  target_id = some "2";
  outcome = "success";
  details = none;
  request_id = none;
}

abbrev logged_tables : Db
logged_tables = record (tables JobStatus.queued) {
  audit_events = event "a" ∷ event "b" ∷ event "a" ∷ event "a" ∷ [];
}

abbrev logged : World
logged = record (world JobStatus.queued) { db = logged_tables }

-- the review of a prediction that is not there
abbrev missing : World
missing = (relabel admin 8 "letter" 1 none none (step logged)).1

handle-answers_example :
    handle admin 1 (Route.review_prediction 8 request) logged ≡ (err (http_exception 404), missing)
unfolding relabel Predictions.get_by_id rows scalar_one_or_none require_prediction
    Authorization.require_permission Authorization.can enforce baseline_policy_tuples
    require_permission
handle-answers_example =
    handle-answers admin 1 (Call.review 8 request "letter") logged (step logged)
      prediction_not_found missing (refl, refl) refl refl

review_prediction-returns_example :
    (l : String) × Gives request l
    × IsReviewed admin 7 l 1 none logged
        (as_relabelled "letter" 1 104 prediction)
        (review_prediction admin 1 7 request logged).1.saved
unfolding review_prediction review_as require_label require_permission relabel Predictions.get_by_id
    rows scalar_one_or_none require_prediction Authorization.require_permission Authorization.can
    enforce check_and_apply apply_label now write statement record_event AuditEvents.create
    cache_batch_id Documents.get_by_id batch_of commit or_warn baseline_policy_tuples
    invalidate_after_relabel invalidate_batch_list invalidate_batch_detail
    invalidate_prediction_detail invalidate_audit_list for_each try_delete delete delete_cache_key
    swallow apply
review_prediction-returns_example =
    review_prediction-returns admin 1 7 request logged (as_relabelled "letter" 1 104 prediction)
      (review_prediction admin 1 7 request logged).1 refl

-- the events "a", two and one at a time
abbrev events_of : ℕ → ℕ → List AuditEventRead
events_of limit offset = elim (list_events admin none (some "a") none none limit offset logged).0 [
  | ok reads ↦ reads
  | err e ↦ []
]

list_audit_events-bounded_example :
    (1 ≤ 2)
    × (2 ≤ 100)
    × (length (events_of 2 1) ≤ 2)
    × All (IsSelected none (some "a") none none) (events_of 2 1)
unfolding list_events AuditEvents.list rows rows_at list_audit_events require_permission
    Authorization.require_permission Authorization.can enforce baseline_policy_tuples
list_audit_events-bounded_example =
    list_audit_events-bounded admin 1 none (some "a") none none 2 1 logged (events_of 2 1)
      (step (step logged)) (λ t p xs. refl) refl

abbrev shown : List PredictionRead
shown = elim (list_recent_predictions admin 1 (some true) 5 0 logged).0 [
  | ok reads ↦ reads
  | err e ↦ []
]

list_recent-IsPage_example :
    (1 ≤ 5) × (5 ≤ 100) × IsPage admin 1 (some true) 5 0 logged_tables shown
unfolding list_recent_predictions require_permission Authorization.require_permission
    Authorization.can enforce baseline_policy_tuples recent Predictions.list_review_eligible
    Predictions.list_recent read_each read_with_overlay prediction_to_read rows rows_at
    scalar_one_or_none Predictions.get_overlay_by_prediction Documents.get_by_id
list_recent-IsPage_example =
    list_recent-IsPage admin 1 (some true) 5 0 logged shown
      (list_recent_predictions admin 1 (some true) 5 0 logged).1 (λ t p xs. refl) refl
