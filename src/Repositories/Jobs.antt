-- ===== src/Repositories/Jobs.antt =====
-- backend/app/repositories/jobs.py
use document_classifier_week.Prelude.{Bool, true, false, ◌&&◌, Option, ◌==◌, nat_eq, select}
use document_classifier_week.Models.{Change, Uuid, JobStatus, ClassificationJob}
use document_classifier_week.Session.{
  Outside, M, pure, write, ◌>>=◌, ◌>>◌, statement, rows, scalar_one_or_none,
}

-- `status IN (queued, running)`
abbrev pub is_in_progress : JobStatus → Bool
is_in_progress JobStatus.queued = true
is_in_progress JobStatus.running = true
is_in_progress _ = false

abbrev pub is_active_of : Uuid → ClassificationJob → Bool
is_active_of document_id j = j.document_id == document_id && is_in_progress j.status

module _ (o : Outside) where
  unfoldable pub get_by_id : Uuid → M (Option ClassificationJob)
  get_by_id job_id = do
    found ← rows o (λ db. select (λ j. j.id == job_id) db.classification_jobs)
    scalar_one_or_none found

  unfoldable pub get_active_by_document : Uuid → M (Option ClassificationJob)
  get_active_by_document document_id = do
    found ← rows o (λ db. select (is_active_of document_id) db.classification_jobs)
    scalar_one_or_none found

  unfoldable pub create : ClassificationJob → M ClassificationJob
  create j = do write (Change.add_job j); statement o; pure j
