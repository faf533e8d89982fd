-- ===== src/Guards/Ingestions.antt =====
-- What an ingestion that returned has checked and done.
pub mod Parts
use document_classifier_week.Prelude.{
  ◌≡◌, refl, sym, String, ◌<>◌, Bool, true, false, not, Option, none, some, [], arith, str, select,
}
use document_classifier_week.Models.{
  Uuid, Time, Bytes, Db, Change, apply, Document, Batch, BatchStatus, JobStatus, Details, as_queued,
  as_stored, ClassificationJob, AuditEvent,
}
use document_classifier_week.Session.{Outside, unsupported_file_type, step, uuid4}
use document_classifier_week.Session.Ensures.{
  Ensures, Ensures-raise, Ensures-statement, Ensures-now, Ensures-guard, Ensures-one_row,
  Ensures-catch, to_list,
}
use document_classifier_week.Repositories.Documents
use document_classifier_week.Repositories.Batches
use document_classifier_week.Repositories.Jobs
use document_classifier_week.Minio.{upload_file, upload_original, originals_bucket}
use document_classifier_week.Ingestion.{
  is_tiff, or_root, new_document, validate_tiff, reject_duplicate, create_batch, upload_to_storage,
  enqueue_classification_job, create_document, store_and_enqueue,
}
use document_classifier_week.Guards.Steps.{Ensures-require_permission, Ensures-uuid4}
use document_classifier_week.Guards.Ingestions.Parts.{
  not-false, new_batch, with_document, Ensures-reject_duplicate, Ensures-create_batch, new_job,
  key_of, with_job, Ensures-upload_file, Ensures-upload_to_storage, Ensures-enqueue,
  Ensures-create_job,
}

-- the event of an ingestion
abbrev pub ingested_event : Document → String → String → Option String → AuditEvent
ingested_event d path rq request_id = record {
  actor_user_id = none;
  action = "document.ingested";
  target_type = some "document";
  target_id = some (str d.id);
  outcome = "success";
  details = some (Details.ingested path rq);
  request_id = request_id;
}

-- the tables after an ingestion
abbrev pub with_ingestion : Batch → Document → ClassificationJob → AuditEvent → Db → Db
with_ingestion b d j event db = apply (Change.add_audit event) (
    apply (Change.count_document b.id 1)
      (apply (Change.queue_document d.id) (with_job d j (with_document b d db))))

-- What an ingestion that returned `q`, with the committed tables `db'`, has checked and done.
abbrev pub IsIngested :
    Outside → String → String → Bytes → Option String → Db → Document → Db → Type 0
IsIngested o path name content request_id db q db' =
    (b : Batch) × (d : Document) × (id : Uuid) × (t : Time) × (rq : String) × (is_tiff content
      ≡ true)
    × (select (Documents.is_active_duplicate (o.sha256 content) path) db.documents ≡ [])
    × (b ≡ new_batch b.id (or_root (o.dirname path)))
    × (d ≡ new_document d.id b.id path name content (o.sha256 content))
    × (q ≡ as_queued (as_stored originals_bucket (key_of d) d))
    × (db' ≡ with_ingestion b d (new_job id d.id rq t) (ingested_event d path rq request_id) db)
