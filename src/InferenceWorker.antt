-- ===== src/InferenceWorker.antt =====
-- backend/app/workers/inference_worker.py: the RQ job `classify_document`. Its arguments are the
-- identifiers whose texts `enqueue_classification_job` sends.
use document_classifier_week.Prelude.{String, ◌<>◌, Option, none, some, str, if◌then◌else◌}
use document_classifier_week.Models.{Uuid, Bytes, Document}
use document_classifier_week.Session.{
  Outside, InferenceResult, classification_error, pipeline_error, M, Result, ok, err, pure, raise,
  catch, step, ◌>>=◌, ◌>>◌, in_session,
}
use document_classifier_week.Repositories.Documents
use document_classifier_week.Repositories.Jobs
use document_classifier_week.Models.{ClassificationJob}
use document_classifier_week.Minio.{originals_bucket, overlays_bucket, upload_file, download_file}
use document_classifier_week.ClassificationJobs.{
  mark_running, persist_result, mark_retryable_failure,
}

abbrev pub analysed : Option (InferenceResult × Bytes) → Result (InferenceResult × Bytes)
analysed none = err pipeline_error
analysed (some r) = ok r

module _ (o : Outside) where
  -- `_get_model()`: the validation and the loading of the classifier. That it is loaded once per
  -- process is left to the answers of `model_fails`.
  unfoldable pub get_model : M Unit
  get_model w = if o.model_fails w.tick then (err pipeline_error, step w) else (ok tt, step w)

  -- preprocessing, inference and overlay
  unfoldable pub analyse : Bytes → M (InferenceResult × Bytes)
  analyse content w = (analysed (o.classify w.tick content), step w)

  unfoldable pub run_pipeline : String → M (InferenceResult × Bytes)
  run_pipeline blob_key = do
    get_model
    content ← download_file o originals_bucket blob_key
    analyse content

  -- the blob of the document, or `ClassificationError`
  unfoldable pub with_key : Document → Option String → M (Document × String)
  with_key d none = raise classification_error
  with_key d (some key) = pure (d, key)

  unfoldable pub blob_of : Option Document → M (Document × String)
  blob_of none = raise classification_error
  blob_of (some d) = with_key d d.blob_key

  -- the body of the `try`
  unfoldable pub attempt : Uuid → Uuid → Uuid → M Unit
  attempt job_id doc_uuid meta_uuid = do
    found ← Documents.get_by_id o doc_uuid
    (doc, blob_key) ← blob_of found
    (result, overlay_png) ← run_pipeline blob_key
    let overlay_key = "overlays/" <> (str doc_uuid <> ".png")
    upload_file o overlays_bucket overlay_key overlay_png
    persist_result o job_id doc_uuid meta_uuid result.predicted_class result.top1_confidence
        result.class_scores overlays_bucket overlay_key doc.batch_id
    pure tt

  unfoldable pub active_job : Option ClassificationJob → M ClassificationJob
  active_job none = raise classification_error
  active_job (some job) = pure job

  -- the `with` block of `classify_document`
  unfoldable pub run_job : Uuid → Uuid → M Unit
  run_job doc_uuid meta_uuid = do
    found ← Jobs.get_active_by_document o doc_uuid
    job ← active_job found
    mark_running o job.id
    catch (attempt job.id doc_uuid meta_uuid)
        (λ exc. mark_retryable_failure o job.id (o.exc_text exc) >> raise exc)

  unfoldable pub classify_document : Uuid → Uuid → M Unit
  classify_document doc_uuid meta_uuid = in_session o (run_job doc_uuid meta_uuid)
