-- ===== src/Ingestion.antt =====
-- backend/app/services/ingestion.py, with `enqueue_classification_job` of backend/app/infra/queue.py.
use document_classifier_week.Prelude.{
  ◌+◌, String, Bool, true, false, not, ◌&&◌, Option, none, some, List, [], ◌∷◌, ◌==◌, nat_eq,
  string_eq, any, length, str, if◌then◌else◌,
}
use document_classifier_week.Models.{
  Uuid, Bytes, BatchStatus, IngestionStatus, JobStatus, Batch, Document, Details, Change, as_stored,
  as_queued,
}
use document_classifier_week.Session.{
  Outside, redis_error, unsupported_file_type, duplicate_document, storage_error, M, ok, err, pure,
  raise, raise_if, write, catch, step, ◌>>=◌, ◌>>◌, uuid4, now, commit,
}
use document_classifier_week.Repositories.Batches
use document_classifier_week.Repositories.Documents
use document_classifier_week.Repositories.Jobs
use document_classifier_week.Minio.{upload_original}
use document_classifier_week.Audit.{record_event}
use document_classifier_week.Cache.{or_warn, invalidate_batch_list}

-- `data.startswith(magic)`
pub startswith : Bytes → Bytes → Bool
startswith [] content = true
startswith (m ∷ magic) [] = false
startswith (m ∷ magic) (b ∷ content) = m == b && startswith magic content

-- b"II*\x00" and b"MM\x00*"
abbrev pub tiff_magic : List Bytes
tiff_magic = (73 ∷ 73 ∷ 42 ∷ 0 ∷ []) ∷ (77 ∷ 77 ∷ 0 ∷ 42 ∷ []) ∷ []

unfoldable pub is_tiff : Bytes → Bool
unfolding startswith
is_tiff content = any (λ magic. startswith magic content) tiff_magic

-- `dirname(source_path) or "/"`
abbrev pub or_root : String → String
or_root dir = if dir == "" then "/" else dir

-- a document that `ingest_file` has just built
abbrev pub new_document : Uuid → Uuid → String → String → Bytes → String → Document
new_document id batch_id source_path source_filename content checksum = record {
  id = id;
  batch_id = batch_id;
  source_path = source_path;
  source_filename = source_filename;
  source_size_bytes = length content;
  source_checksum = checksum;
  blob_bucket = none;
  blob_key = none;
  mime_type = "image/tiff";
  ingestion_status = IngestionStatus.pending;
}

module _ (o : Outside) where
  unfoldable pub validate_tiff : Bytes → M Unit
  validate_tiff content = raise_if (not (is_tiff content)) unsupported_file_type

  unfoldable pub reject_duplicate : Option Document → M Unit
  reject_duplicate none = pure tt
  reject_duplicate (some d) = raise duplicate_document

  -- `_get_or_create_batch`, which always creates
  unfoldable pub create_batch : String → M Batch
  create_batch source_path = do
    id ← uuid4 o
    Batches.create o (record {
      id = id;
      source = or_root (o.dirname source_path);
      status = BatchStatus.processing;
      document_count = 0;
      reviewable_count = 0;
    })

  -- any failure of the upload becomes a `StorageError`
  unfoldable pub upload_to_storage : Uuid → Bytes → M (String × String)
  upload_to_storage document_id content =
      catch (upload_original o document_id content) (λ exc. raise storage_error)

  abbrev enqueued : Uuid → Uuid → Option String → M String
  enqueued document_id model_metadata_id none w = (err redis_error, w)
  enqueued document_id model_metadata_id (some rq_job_id) w =
      (ok rq_job_id, record w { queue = (document_id, model_metadata_id) ∷ w.queue })

  unfoldable pub enqueue_classification_job : Uuid → Uuid → M String
  enqueue_classification_job document_id model_metadata_id w =
      enqueued document_id model_metadata_id (o.enqueue w.tick document_id model_metadata_id)
        (step w)

  -- `ingest_file` up to the pending document
  unfoldable pub create_document : String → String → Bytes → M (Batch × Document)
  create_document source_path source_filename content = do
    validate_tiff content
    let checksum = o.sha256 content
    existing ← Documents.find_active_duplicate o checksum source_path
    reject_duplicate existing
    batch ← create_batch source_path
    id ← uuid4 o
    document ←
        Documents.create o (new_document id batch.id source_path source_filename content checksum)
    pure (batch, document)

  -- the upload, and the job of the stored document
  unfoldable pub store_and_enqueue : Document → Bytes → Uuid → M (Document × String)
  store_and_enqueue document content model_metadata_id = do
    (blob_bucket, blob_key) ← upload_to_storage document.id content
    let stored = as_stored blob_bucket blob_key document
    write (Change.store_document document.id blob_bucket blob_key)
    rq_job_id ← enqueue_classification_job stored.id model_metadata_id
    id ← uuid4 o
    t ← now o
    Jobs.create o (record {
      id = id;
      document_id = stored.id;
      rq_job_id = some rq_job_id;
      status = JobStatus.queued;
      attempt_count = 1;
      last_error = none;
      enqueued_at = some t;
      started_at = none;
      finished_at = none;
    })
    pure (stored, rq_job_id)

  unfoldable pub ingest_file : String → String → Bytes → Uuid → Option String → M Document
  ingest_file source_path source_filename content model_metadata_id request_id = do
    (batch, document) ← create_document source_path source_filename content
    (stored, rq_job_id) ← store_and_enqueue document content model_metadata_id
    write (Change.queue_document stored.id)
    write (Change.count_document batch.id (batch.document_count + 1))
    record_event o "document.ingested" "success" none (some "document") (some (str document.id))
        (some (Details.ingested source_path rq_job_id)) request_id
    commit o
    or_warn (invalidate_batch_list o)
    pure (as_queued stored)

  unfoldable pub mark_failed : String → String → String → Option String → M Unit
  mark_failed source_path source_filename reason request_id = do
    record_event o "document.ingestion_failed" "failure" none (some "document") (some source_path)
        (some (Details.ingestion_failed source_filename reason)) request_id
    commit o
