-- ===== src/Tests/Failures.antt =====
-- The theorems on runs that raise: the database fails in the middle of each.
use document_classifier_week.Prelude.{str, ◌≡◌, refl, none, [], ◌∷◌}
use document_classifier_week.Models.{JobStatus, units}
use document_classifier_week.Session.{
  Outside, World, delete_roles_for_user, database_error, statement, rows, rows_at, uuid4, now,
  write, scalar_one_or_none, for_each,
}
use document_classifier_week.Repositories.Roles
use document_classifier_week.Repositories.Documents
use document_classifier_week.Repositories.Batches
use document_classifier_week.Repositories.Jobs
use document_classifier_week.Repositories.Predictions
use document_classifier_week.Authorization
use document_classifier_week.Authorization.{enforce, baseline_policy_tuples}
use document_classifier_week.Cache.{invalidate_after_relabel}
use document_classifier_week.Cache.Effects.{IsHarmless, after_relabel-IsHarmless}
use document_classifier_week.RoleManagement.{
  require_admin, validate_role, new_assignment, assign_each, replace_roles,
}
use document_classifier_week.PredictionReview.{
  relabel, require_prediction, check_and_apply, apply_label,
}
use document_classifier_week.ClassificationJobs.{
  persist_result, create_prediction, finish_job, require_job, found_job,
}
use document_classifier_week.Ingestion.{
  ingest_file, create_document, validate_tiff, is_tiff, reject_duplicate, create_batch,
}
use document_classifier_week.Transactions.Services.{
  relabel-raises, persist_result-raises, ingest_file-raises,
}
use document_classifier_week.Transactions.Stored.{IsStored, replace_roles-leaves}
use document_classifier_week.Tests.Samples.{outside, world, tables, tiff}

abbrev failing : Outside
failing = outside "admin" 3

abbrev queued : World
queued = world JobStatus.queued

replace_roles-leaves_example :
    ((replace_roles failing 2 ("admin" ∷ []) 1 none queued).1.saved ≡ tables JobStatus.queued)
    × IsStored ("admin" ∷ []) 2 [] (replace_roles failing 2 ("admin" ∷ []) 1 none queued).1.policies
unfolding replace_roles require_admin Authorization.require_permission Authorization.can enforce
    baseline_policy_tuples rows rows_at write statement now for_each validate_role
    Roles.revoke_all_for_user Roles.get_active_roles Authorization.remove_roles_for_user
    Authorization.tell assign_each new_assignment uuid4 Roles.create
replace_roles-leaves_example =
    replace_roles-leaves failing 2 ("admin" ∷ []) 1 none queued database_error refl

-- After this run Casbin has already stored the removal of the user's roles.
stored_policies :
    (replace_roles failing 2 ("admin" ∷ []) 1 none queued).1.policies
    ≡ delete_roles_for_user "00000000-0000-0000-0000-000000000002" ∷ []
unfolding replace_roles require_admin Authorization.require_permission Authorization.can enforce
    baseline_policy_tuples rows rows_at write statement now for_each validate_role
    Roles.revoke_all_for_user Roles.get_active_roles Authorization.remove_roles_for_user
    Authorization.tell assign_each new_assignment uuid4 Roles.create str
stored_policies = refl

relabel-raises_example :
    (relabel failing 7 "letter" 1 none none queued).1.saved ≡ tables JobStatus.queued
unfolding relabel Predictions.get_by_id scalar_one_or_none require_prediction
    Authorization.require_permission Authorization.can enforce baseline_policy_tuples
    check_and_apply apply_label rows write statement now
relabel-raises_example = relabel-raises failing 7 "letter" 1 none none queued database_error refl

persist_result-raises_example :
    (persist_result failing 3 5 1 "form" (units 5) [] "overlays" "k" 4 queued).1.saved
    ≡ tables JobStatus.queued
unfolding persist_result create_prediction uuid4 Predictions.create Predictions.create_overlay write
    statement finish_job require_job Jobs.get_by_id rows scalar_one_or_none found_job now
persist_result-raises_example =
    persist_result-raises failing 3 5 1 "form" (units 5) [] "overlays" "k" 4 queued database_error
      refl

ingest_file-raises_example :
    (ingest_file failing "/in/b.tif" "b.tif" tiff 1 none queued).1.saved ≡ tables JobStatus.queued
unfolding ingest_file create_document validate_tiff is_tiff Documents.find_active_duplicate rows
    scalar_one_or_none reject_duplicate create_batch Batches.create uuid4 write statement
    Documents.create
ingest_file-raises_example =
    ingest_file-raises failing "/in/b.tif" "b.tif" tiff 1 none queued database_error refl

after_relabel-IsHarmless_example : IsHarmless (invalidate_after_relabel failing 4 7)
after_relabel-IsHarmless_example = after_relabel-IsHarmless failing 4 7
