-- ===== src/Tests/Runs.antt =====
-- The theorems on what a run has done, at runs that return.
use document_classifier_week.Prelude.{
  false, ℕ, ◌+◌, ◌≡◌, refl, String, none, some, [], ◌∷◌, select, string_eq, nat_eq, str, ◌||◌, ◌==◌,
  ◌⊎◌,
}
use document_classifier_week.Models.{
  JobStatus, Document, Prediction, RoleAssignment, as_relabelled, as_stored, as_queued, units,
  review_confidence_threshold, apply,
}
use document_classifier_week.Session.{
  Outside, World, err, statement, rows, rows_at, commit, uuid4, now, write, scalar_one_or_none,
  for_each, classification_error, database_error,
}
use document_classifier_week.Repositories.AuditEvents
use document_classifier_week.Repositories.Roles
use document_classifier_week.Repositories.Documents
use document_classifier_week.Repositories.Batches
use document_classifier_week.Repositories.Jobs
use document_classifier_week.Repositories.Predictions
use document_classifier_week.Audit.{record_event}
use document_classifier_week.Authorization
use document_classifier_week.Authorization.{
  Role, role_text, Resource, Action, enforce, baseline_policy_tuples,
}
use document_classifier_week.Cache.{
  or_warn, delete_cache_key, delete, swallow, try_delete, invalidate_batch_list,
  invalidate_batch_detail, invalidate_prediction_detail, invalidate_audit_list,
  invalidate_user_roles, invalidate_after_relabel, invalidate_after_classification,
}
use document_classifier_week.RoleManagement
use document_classifier_week.PredictionReview.{
  relabel, require_prediction, check_and_apply, apply_label, cache_batch_id, batch_of,
}
use document_classifier_week.ClassificationJobs.{
  persist_result, create_prediction, finish_job, require_job, found_job,
}
use document_classifier_week.Ingestion.{new_document}
use document_classifier_week.InferenceWorker.{classify_document}
use document_classifier_week.IngestionWorker.{detect, is_unchanged}
use document_classifier_week.IngestionWorker.Stability.{entry_of, detect-twice}
use document_classifier_week.Guards.Permissions.{permits, enforce-permits}
use document_classifier_week.Guards.Reviews.{IsReviewed, relabel-returns}
use document_classifier_week.Guards.Roles.{replace_roles-returns}
use document_classifier_week.Guards.Roles.Parts.{active, replaced, pushed}
use document_classifier_week.Guards.Jobs.{
  IsPersisted, persist_result-returns, classify_document-no_job,
}
use document_classifier_week.Tests.Samples.{outside, world, tables, prediction, file, tiff}

abbrev admin : Outside
admin = outside "admin" 100

abbrev queued : World
queued = world JobStatus.queued

relabel-returns_example :
    IsReviewed admin 7 "letter" 1 none queued
      (as_relabelled "letter" 1 103 prediction)
      (relabel admin 7 "letter" 1 none none queued).1.saved
unfolding relabel Predictions.get_by_id rows scalar_one_or_none require_prediction
    Authorization.require_permission Authorization.can enforce check_and_apply apply_label now write
    statement record_event AuditEvents.create cache_batch_id Documents.get_by_id batch_of commit
    or_warn baseline_policy_tuples invalidate_after_relabel invalidate_batch_list
    invalidate_batch_detail invalidate_prediction_detail invalidate_audit_list for_each try_delete
    delete delete_cache_key swallow apply
relabel-returns_example =
    relabel-returns admin 7 "letter" 1 none none queued (as_relabelled "letter" 1 103 prediction)
      (relabel admin 7 "letter" 1 none none queued).1 refl

abbrev ingested : Document
ingested = as_queued (
    as_stored "originals" "00000000-0000-0000-0000-000000000067.tiff"
      (new_document 103 101 "/in/b.tif" "b.tif" tiff "checksum"))

abbrev granted : String → ℕ → RoleAssignment
granted role id = record {
  id = id;
  user_id = 2;
  role = role;
  assigned_by_user_id = some 1;
  assigned_at = 1 + id;
  revoked_at = none;
}

replace_roles-returns_example :
    active 2
      (RoleManagement.replace_roles admin 2
        ("reviewer" ∷ "admin" ∷ [])
        1
        none
        queued).1.saved.role_assignments
    ≡ replaced 2 2
        (pushed ("reviewer" ∷ "admin" ∷ []) [])
        (active 2 (tables JobStatus.queued).role_assignments)
unfolding RoleManagement.replace_roles RoleManagement.require_admin RoleManagement.validate_role
    RoleManagement.new_assignment RoleManagement.assign_each RoleManagement.audit_change
    Roles.revoke_all_for_user Roles.get_active_roles Roles.create Authorization.require_permission
    Authorization.can enforce Authorization.assign_role Authorization.remove_roles_for_user
    Authorization.tell baseline_policy_tuples rows rows_at uuid4 now write statement record_event
    AuditEvents.create commit or_warn invalidate_user_roles invalidate_batch_list for_each
    try_delete delete delete_cache_key swallow apply
replace_roles-returns_example =
    replace_roles-returns admin 2 ("reviewer" ∷ "admin" ∷ []) 1 2 none queued
      (granted "reviewer" 105 ∷ granted "admin" 109 ∷ [])
      (RoleManagement.replace_roles admin 2 ("reviewer" ∷ "admin" ∷ []) 1 none queued).1 refl

abbrev persisted : Prediction
persisted = record prediction { id = 100; predicted_class = "form"; top1_confidence = units 5 }

persist_result-returns_example :
    IsPersisted 3 5 1 "form"
      (units 5)
      []
      "overlays"
      "k"
      (tables JobStatus.queued)
      persisted
      (persist_result admin 3 5 1 "form" (units 5) [] "overlays" "k" 4 queued).1.saved
unfolding persist_result create_prediction uuid4 Predictions.create Predictions.create_overlay write
    statement finish_job require_job Jobs.get_by_id rows scalar_one_or_none found_job now
    record_event AuditEvents.create commit or_warn invalidate_after_classification
    invalidate_batch_list invalidate_batch_detail invalidate_prediction_detail for_each try_delete
    delete delete_cache_key swallow apply review_confidence_threshold
persist_result-returns_example =
    persist_result-returns admin 3 5 1 "form" (units 5) [] "overlays" "k" 4 queued persisted
      (persist_result admin 3 5 1 "form" (units 5) [] "overlays" "k" 4 queued).1 refl

classify_document-no_job_example :
    (((classify_document admin 5 1 (world JobStatus.retryable_failed)).0 ≡ err classification_error)
      ⊎ ((classify_document admin 5 1 (world JobStatus.retryable_failed)).0 ≡ err database_error))
    × ((classify_document admin 5 1 (world JobStatus.retryable_failed)).1.saved
        ≡ tables JobStatus.retryable_failed)
classify_document-no_job_example =
    classify_document-no_job admin 5 1 (world JobStatus.retryable_failed) (refl, tt)

detect-twice_example :
    (detect (file 9 ∷ []) (detect (file 9 ∷ []) []).1).0
    ≡ select (λ f. is_unchanged f (entry_of f.filename (file 9 ∷ []))) (file 9 ∷ [])
detect-twice_example = detect-twice (file 9 ∷ []) (file 9 ∷ []) [] (refl, tt) (refl, tt)

-- Casbin links a user to the user's own identifier too.
abbrev auditor : Outside
auditor = record (outside "auditor" 9) { g = λ h sub r. sub == r || "auditor" == r }

not_role : (t : Role) → (str 2 == role_text t) ≡ false
unfolding str
not_role Role.admin = refl
not_role Role.reviewer = refl
not_role Role.auditor = refl

enforce-permits_example :
    enforce auditor [] (str 2) "audit_logs" "read"
    ≡ permits Role.auditor Resource.audit_logs Action.read
enforce-permits_example =
    enforce-permits auditor [] 2 Role.auditor Resource.audit_logs Action.read refl not_role
      (λ t. refl)
