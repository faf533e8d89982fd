-- ===== src/Tests/Samples.antt =====
-- Small tables, and services outside that answer in a simple way.
use document_classifier_week.Prelude.{
  ℕ, ◌+◌, String, ◌==◌, string_eq, ltb, true, false, none, some, [], ◌∷◌,
}
use document_classifier_week.Models.{
  Db, Bytes, units, JobStatus, IngestionStatus, Document, Prediction, RoleAssignment,
  ClassificationJob,
}
use document_classifier_week.Session.{
  Outside, World, S3Answer, BucketAnswer, S3Object, Listing, Stat, Reading,
}
use document_classifier_week.Sftp.{SftpFileInfo}
use document_classifier_week.Authorization.{baseline_policy_tuples}

-- Identifiers and times count from 100; every user has the role `role`; statements fail after `last`.
abbrev pub outside : String → ℕ → Outside
outside role last = record {
  uuid4 = λ t. 100 + t;
  now = λ t. 100 + t;
  newest_batches = λ t xs. xs;
  newest_predictions = λ t xs. xs;
  newest_audit_events = λ t xs. xs;
  oldest_users = λ t xs. xs;
  in_any_order = λ t xs. xs;
  database_fails = λ t. ltb last t;
  casbin_fails = λ t. false;
  g = λ h sub r. role == r;
  p = λ h. baseline_policy_tuples;
  bucket_exists = λ t bucket. BucketAnswer.exists false;
  make_bucket = λ t bucket. S3Answer.done;
  stat_object = λ t bucket key. S3Answer.s3_error "NoSuchKey";
  put_object = λ t bucket key bytes. S3Answer.done;
  get_object = λ t bucket key. S3Object.client_error;
  enqueue = λ t doc meta. some "job";
  redis_fails = λ t key. true;
  sftp_connected = λ t. true;
  listdir_attr = λ t dir. Listing.os_error;
  stat = λ t path. Stat.os_error;
  open_read = λ t path. Reading.os_error;
  model_fails = λ t. false;
  classify = λ t bytes. none;
  sha256 = λ bytes. "checksum";
  strip_lower = λ s. s;
  dirname = λ s. "/in";
  exc_text = λ e. "error";
  random_password_hash = λ t. "hash";
}

abbrev pub prediction : Prediction
prediction = record {
  id = 7;
  document_id = 5;
  model_metadata_id = 1;
  predicted_class = "memo";
  top1_confidence = units 3;
  class_scores = [];
  review_eligible = true;
  review_label = none;
  reviewed_by_user_id = none;
  reviewed_at = none;
}

abbrev pub document : Document
document = record {
  id = 5;
  batch_id = 4;
  source_path = "/in/a.tif";
  source_filename = "a.tif";
  source_size_bytes = 9;
  source_checksum = "other";
  blob_bucket = some "originals";
  blob_key = some "a";
  mime_type = "image/tiff";
  ingestion_status = IngestionStatus.queued;
}

abbrev pub job : JobStatus → ClassificationJob
job status = record {
  id = 3;
  document_id = 5;
  rq_job_id = some "job";
  status = status;
  attempt_count = 1;
  last_error = none;
  enqueued_at = some 1;
  started_at = none;
  finished_at = none;
}

abbrev pub assignment : RoleAssignment
assignment = record {
  id = 9;
  user_id = 2;
  role = "auditor";
  assigned_by_user_id = some 1;
  assigned_at = 1;
  revoked_at = none;
}

abbrev pub tables : JobStatus → Db
tables status = record {
  users = [];
  role_assignments = assignment ∷ [];
  batches = [];
  documents = document ∷ [];
  classification_jobs = job status ∷ [];
  predictions = prediction ∷ [];
  overlay_assets = [];
  audit_events = [];
}

abbrev pub world : JobStatus → World
world status = record {
  tick = 0;
  active = true;
  db = tables status;
  saved = tables status;
  policies = [];
  buckets = [];
  blobs = [];
  queue = [];
  deleted_keys = [];
}

abbrev pub file : ℕ → SftpFileInfo
file size = record {
  filename = "a.tif";
  remote_path = "/in/a.tif";
  size_bytes = size;
  modified_at = 1;
}

abbrev pub tiff : Bytes
tiff = 73 ∷ 73 ∷ 42 ∷ 0 ∷ 1 ∷ []
