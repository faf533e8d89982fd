-- ===== src/Tests/Sequences.antt =====
-- Two calls in one session: an ingestion whose upload failed, and roles given twice.
use document_classifier_week.Prelude.{◌≡◌, refl, none, [], ◌∷◌}
use document_classifier_week.Models.{JobStatus, Document, apply}
use document_classifier_week.Session.{
  Outside, World, Result, err, S3Answer, storage_error, duplicate_document, multiple_results_found,
  statement, rows, rows_at, commit, uuid4, now, write, scalar_one_or_none, for_each,
}
use document_classifier_week.Repositories.AuditEvents
use document_classifier_week.Repositories.Roles
use document_classifier_week.Repositories.Documents
use document_classifier_week.Repositories.Batches
use document_classifier_week.Audit.{record_event}
use document_classifier_week.Authorization
use document_classifier_week.Authorization.{enforce, baseline_policy_tuples}
use document_classifier_week.Cache.{
  or_warn, delete_cache_key, delete, swallow, try_delete, invalidate_batch_list,
  invalidate_user_roles,
}
use document_classifier_week.RoleManagement
use document_classifier_week.Minio.{upload_file, upload_original}
use document_classifier_week.Ingestion.{
  ingest_file, create_document, validate_tiff, is_tiff, reject_duplicate, create_batch,
  store_and_enqueue, upload_to_storage,
}
use document_classifier_week.Tests.Samples.{outside, world, tiff}

-- The store refuses every upload.
abbrev offline : Outside
offline = record (outside "admin" 100) {
  put_object = λ t bucket key content. S3Answer.client_error;
}

abbrev ingest : World → Result Document × World
ingest = ingest_file offline "/in/b.tif" "b.tif" tiff 1 none

first_upload : (ingest (world JobStatus.queued)).0 ≡ err storage_error
unfolding ingest_file create_document validate_tiff is_tiff Documents.find_active_duplicate rows
    scalar_one_or_none reject_duplicate create_batch Batches.create uuid4 write statement
    Documents.create store_and_enqueue upload_to_storage upload_original upload_file apply
first_upload = refl

second_upload : (ingest (ingest (world JobStatus.queued)).1).0 ≡ err duplicate_document
unfolding ingest_file create_document validate_tiff is_tiff Documents.find_active_duplicate rows
    scalar_one_or_none reject_duplicate create_batch Batches.create uuid4 write statement
    Documents.create store_and_enqueue upload_to_storage upload_original upload_file apply
second_upload = refl

-- the same role twice in one list
abbrev twice : World
twice =
    (RoleManagement.replace_roles (outside "admin" 100) 2 ("reviewer" ∷ "reviewer" ∷ []) 1 none
      (world JobStatus.queued)).1

assign_after_twice :
    (RoleManagement.assign_role (outside "admin" 100) 2 "reviewer" 1 none twice).0
    ≡ err multiple_results_found
unfolding RoleManagement.replace_roles RoleManagement.assign_role RoleManagement.require_admin
    RoleManagement.validate_role RoleManagement.new_assignment RoleManagement.assign_each
    RoleManagement.audit_change Roles.revoke_all_for_user Roles.get_active_roles Roles.create
    Roles.has_active_role scalar_one_or_none Authorization.require_permission Authorization.can
    enforce Authorization.assign_role Authorization.remove_roles_for_user Authorization.tell
    baseline_policy_tuples rows rows_at uuid4 now write statement record_event AuditEvents.create
    commit or_warn invalidate_user_roles invalidate_batch_list for_each try_delete delete
    delete_cache_key swallow apply
assign_after_twice = refl
