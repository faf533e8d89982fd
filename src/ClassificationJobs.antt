-- ===== src/ClassificationJobs.antt =====
-- backend/app/services/classification_jobs.py
use document_classifier_week.Prelude.{String, Bool, true, false, Option, none, some, List, str}
use document_classifier_week.Models.{
  Uuid, JobStatus, ClassificationJob, Prediction, Float, float_lt, review_confidence_threshold,
  Details, Change, as_started, as_failed,
}
use document_classifier_week.Session.{
  Outside, classification_error, M, pure, raise, ◌>>=◌, ◌>>◌, uuid4, now, write, statement, commit,
}
use document_classifier_week.Repositories.Jobs
use document_classifier_week.Repositories.Predictions
use document_classifier_week.Audit.{record_event}
use document_classifier_week.Cache.{or_warn, invalidate_after_classification}

module _ (o : Outside) where
  unfoldable pub found_job : Option ClassificationJob → M ClassificationJob
  found_job none = raise classification_error
  found_job (some job) = pure job

  unfoldable pub require_job : Uuid → M ClassificationJob
  require_job job_id = do job ← Jobs.get_by_id o job_id; found_job job

  unfoldable pub mark_running : Uuid → M ClassificationJob
  mark_running job_id = do
    job ← require_job job_id
    t ← now o
    write (Change.start_job job.id t)
    statement o
    commit o
    pure (as_started t job)

  -- `Prediction(...)` and its overlay
  unfoldable pub create_prediction :
      Uuid → Uuid → String → Float → List (String × Float) → String → String → M Prediction
  create_prediction document_id model_metadata_id predicted_class top1_confidence class_scores
        blob_bucket blob_key =
      do
        id ← uuid4 o
        prediction ← Predictions.create o (record {
          id = id;
          document_id = document_id;
          model_metadata_id = model_metadata_id;
          predicted_class = predicted_class;
          top1_confidence = top1_confidence;
          class_scores = class_scores;
          review_eligible = float_lt top1_confidence review_confidence_threshold;
          review_label = none;
          reviewed_by_user_id = none;
          reviewed_at = none;
        })
        overlay_id ← uuid4 o
        Predictions.create_overlay o (record {
          id = overlay_id;
          prediction_id = prediction.id;
          blob_bucket = blob_bucket;
          blob_key = blob_key;
          content_type = "image/png";
        })
        pure prediction

  -- the job is succeeded, and the event is recorded
  unfoldable pub finish_job : Uuid → Uuid → Prediction → M Unit
  finish_job job_id document_id prediction = do
    job ← require_job job_id
    t ← now o
    write (Change.succeed_job job.id t)
    statement o
    record_event o "document.classified" "success" none (some "prediction")
        (some (str prediction.id))
        (some (
          Details.classified document_id prediction.predicted_class prediction.top1_confidence
            prediction.review_eligible))
        none
    pure tt

  unfoldable pub persist_result :
      Uuid
      → Uuid
      → Uuid
      → String
      → Float
      → List (String × Float)
      → String
      → String
      → Uuid
      → M Prediction
  persist_result job_id document_id model_metadata_id predicted_class top1_confidence class_scores
        blob_bucket blob_key batch_id =
      do
        prediction ←
            create_prediction document_id model_metadata_id predicted_class top1_confidence
              class_scores blob_bucket blob_key
        finish_job job_id document_id prediction
        commit o
        or_warn (invalidate_after_classification o batch_id prediction.id)
        pure prediction

  -- the two failures, which differ in the status and in the flag of the event
  unfoldable pub mark_failure : JobStatus → Bool → Uuid → String → M ClassificationJob
  mark_failure status retryable job_id error = do
    job ← require_job job_id
    t ← now o
    write (Change.fail_job job.id status error t)
    statement o
    record_event o "document.classification_failed" "failure" none (some "classification_job")
        (some (str job_id)) (some (Details.classification_failed error retryable)) none
    commit o
    pure (as_failed status error t job)

  unfoldable pub mark_retryable_failure : Uuid → String → M ClassificationJob
  mark_retryable_failure = mark_failure JobStatus.retryable_failed true

  unfoldable pub mark_terminal_failure : Uuid → String → M ClassificationJob
  mark_terminal_failure = mark_failure JobStatus.terminal_failed false
