-- ===== src/Models/Changes.antt =====
-- The changes of rows that the program writes: its `session.add` and the assignments to the
-- attributes of the session's objects, each with the table that it leaves.
use document_classifier_week.Prelude.{
  ℕ, String, Bool, true, false, ◌&&◌, none, some, ◌∷◌, ◌==◌, nat_eq, rewrite,
}
use document_classifier_week.Models.Statuses.{IngestionStatus, JobStatus}
use document_classifier_week.Models.Rows.{
  Uuid, Time, User, RoleAssignment, Batch, Document, ClassificationJob, Prediction, OverlayAsset,
  AuditEvent, Db,
}

pub data Change : Type 0 where
  add_user : User → Change
  add_role : RoleAssignment → Change
  add_batch : Batch → Change
  add_document : Document → Change
  add_job : ClassificationJob → Change
  add_prediction : Prediction → Change
  add_overlay : OverlayAsset → Change
  add_audit : AuditEvent → Change
  revoke_role : Uuid → Time → Change
  revoke_roles_of : Uuid → Time → Change
  count_document : Uuid → ℕ → Change
  store_document : Uuid → String → String → Change
  queue_document : Uuid → Change
  start_job : Uuid → Time → Change
  succeed_job : Uuid → Time → Change
  fail_job : Uuid → JobStatus → String → Time → Change
  relabel : Uuid → String → Uuid → Time → Change

-- `revoked_at IS NULL`
abbrev pub is_active : RoleAssignment → Bool
is_active r = elim r.revoked_at [ none ↦ true | some t ↦ false ]

abbrev pub is_active_of : Uuid → RoleAssignment → Bool
is_active_of user_id r = r.user_id == user_id && is_active r

-- the assignments to the attributes of one row
abbrev pub as_revoked : Time → RoleAssignment → RoleAssignment
as_revoked t r = record r { revoked_at = some t }

abbrev pub as_counted : ℕ → Batch → Batch
as_counted n b = record b { document_count = n }

abbrev pub as_stored : String → String → Document → Document
as_stored bucket key d = record d {
  blob_bucket = some bucket;
  blob_key = some key;
  ingestion_status = IngestionStatus.stored;
}

abbrev pub as_queued : Document → Document
as_queued d = record d { ingestion_status = IngestionStatus.queued }

abbrev pub as_started : Time → ClassificationJob → ClassificationJob
as_started t j = record j { status = JobStatus.running; started_at = some t }

abbrev pub as_succeeded : Time → ClassificationJob → ClassificationJob
as_succeeded t j = record j { status = JobStatus.succeeded; finished_at = some t }

abbrev pub as_failed : JobStatus → String → Time → ClassificationJob → ClassificationJob
as_failed status error t j = record j {
  status = status;
  last_error = some error;
  finished_at = some t;
}

abbrev pub as_relabelled : String → Uuid → Time → Prediction → Prediction
as_relabelled label user_id t p = record p {
  review_label = some label;
  reviewed_by_user_id = some user_id;
  reviewed_at = some t;
}

unfoldable pub apply : Change → Db → Db
apply (add_user x) db = record db { users = x ∷ db.users }
apply (add_role x) db = record db { role_assignments = x ∷ db.role_assignments }
apply (add_batch x) db = record db { batches = x ∷ db.batches }
apply (add_document x) db = record db { documents = x ∷ db.documents }
apply (add_job x) db = record db { classification_jobs = x ∷ db.classification_jobs }
apply (add_prediction x) db = record db { predictions = x ∷ db.predictions }
apply (add_overlay x) db = record db { overlay_assets = x ∷ db.overlay_assets }
apply (add_audit x) db = record db { audit_events = x ∷ db.audit_events }
apply (revoke_role id t) db = record db {
  role_assignments = rewrite (λ r. r.id == id) (as_revoked t) db.role_assignments;
}
apply (revoke_roles_of user_id t) db = record db {
  role_assignments = rewrite (is_active_of user_id) (as_revoked t) db.role_assignments;
}
apply (count_document id n) db = record db {
  batches = rewrite (λ b. b.id == id) (as_counted n) db.batches;
}
apply (store_document id bucket key) db = record db {
  documents = rewrite (λ d. d.id == id) (as_stored bucket key) db.documents;
}
apply (queue_document id) db = record db {
  documents = rewrite (λ d. d.id == id) as_queued db.documents;
}
apply (start_job id t) db = record db {
  classification_jobs = rewrite (λ j. j.id == id) (as_started t) db.classification_jobs;
}
apply (succeed_job id t) db = record db {
  classification_jobs = rewrite (λ j. j.id == id) (as_succeeded t) db.classification_jobs;
}
apply (fail_job id status error t) db = record db {
  classification_jobs = rewrite (λ j. j.id == id) (as_failed status error t) db.classification_jobs;
}
apply (relabel id label user_id t) db = record db {
  predictions = rewrite (λ p. p.id == id) (as_relabelled label user_id t) db.predictions;
}
