-- ===== src/Invariants/Services/Jobs.antt =====
-- backend/app/services/classification_jobs.py keeps the tables' properties.
use document_classifier_week.Prelude.{
  ◌≡◌, refl, ◌⊎◌, inl, inr, String, Bool, true, false, Option, none, some, List,
}
use document_classifier_week.Models.{
  Db, Uuid, Time, JobStatus, ClassificationJob, Prediction, OverlayAsset, AuditEvent, Float, Change,
  Details,
}
use document_classifier_week.Session.{Outside, uuid4}
use document_classifier_week.Session.Keeps.{Keeps, Keeps-bind}
use document_classifier_week.Session.Tables.{Holds, Holds-uuid4}
use document_classifier_week.Repositories.Jobs
use document_classifier_week.Repositories.Predictions
use document_classifier_week.Repositories.AuditEvents
use document_classifier_week.Audit.{record_event}
use document_classifier_week.Cache.Effects.{after_classification-IsHarmless}
use document_classifier_week.ClassificationJobs.{
  found_job, require_job, mark_running, create_prediction, finish_job, persist_result, mark_failure,
  mark_retryable_failure, mark_terminal_failure,
}
use document_classifier_week.Invariants.Sound.{IsSound, IsStable, sound_write}
use document_classifier_week.Invariants.Leaves.{leaves, Holds-or_warn}

module _ (o : Outside) {G : Db → Type 0} (stable : IsStable G) where
  Holds-found_job : (j : Option ClassificationJob) → Keeps (Holds G) (found_job o j)
  unfolding found_job
  Holds-found_job none = search leaves
  Holds-found_job (some j) = search leaves

  Holds-require_job : (id : Uuid) → Keeps (Holds G) (require_job o id)
  unfolding require_job Jobs.get_by_id
  Holds-require_job id = search (leaves, Holds-found_job)

  pub Holds-record :
      (action outcome : String) (actor : Option Uuid) (kind target : Option String)
      (details : Option Details) (request_id : Option String)
      → Keeps (Holds G) (record_event o action outcome actor kind target details request_id)
  unfolding record_event AuditEvents.create
  Holds-record action outcome actor kind target details request_id =
      search (leaves, λ (e : AuditEvent). sound_write (Change.add_audit e) stable tt)

  pub Holds-mark_running : (id : Uuid) → Keeps (Holds G) (mark_running o id)
  unfolding mark_running
  Holds-mark_running id =
      search
        (
          leaves,
          Holds-require_job,
          λ (j : Uuid) (t : Time). sound_write (Change.start_job j t) stable tt,
        )
        depth 12

  Holds-create :
      (p : Prediction)
      → IsSound (Change.add_prediction p)
      → Keeps (Holds G) (Predictions.create o p)
  unfolding Predictions.create
  Holds-create p s = let written = sound_write (Change.add_prediction p) stable s in search leaves

  Holds-create_overlay : (a : OverlayAsset) → Keeps (Holds G) (Predictions.create_overlay o a)
  unfolding Predictions.create_overlay
  Holds-create_overlay a =
      let written = sound_write (Change.add_overlay a) stable tt in search leaves

  Holds-create_prediction :
      (document_id meta : Uuid) (predicted_class : String) (confidence : Float)
      (scores : List (String × Float)) (bucket key : String)
      → Keeps
          (Holds G)
          (create_prediction o document_id meta predicted_class confidence scores bucket key)
  unfolding create_prediction
  Holds-create_prediction document_id meta predicted_class confidence scores bucket key =
      Keeps-bind (uuid4 o) _ (Holds-uuid4 o) (λ id.
        Keeps-bind (Predictions.create o _) _ (Holds-create _ (refl, refl))
          (λ p. search (leaves, Holds-create_overlay) depth 12))

  Holds-finish_job :
      (id document_id : Uuid) (p : Prediction) → Keeps (Holds G) (finish_job o id document_id p)
  unfolding finish_job
  Holds-finish_job id document_id p =
      search
        (
          leaves,
          Holds-require_job,
          Holds-record,
          λ (j : Uuid) (t : Time). sound_write (Change.succeed_job j t) stable tt,
        )
        depth 12

  pub Holds-persist_result :
      (id document_id meta : Uuid) (predicted_class : String) (confidence : Float)
      (scores : List (String × Float)) (bucket key : String) (batch_id : Uuid)
      → Keeps (Holds G) (
          persist_result o id document_id meta predicted_class confidence scores bucket key
            batch_id)
  unfolding persist_result
  Holds-persist_result id document_id meta predicted_class confidence scores bucket key batch_id =
      search
        (
          leaves, Holds-create_prediction, Holds-finish_job, Holds-or_warn,
          after_classification-IsHarmless,
        )
        depth 12

  Holds-mark_failure :
      (status : JobStatus) (retryable : Bool) (id : Uuid) (error : String)
      → (status ≡ JobStatus.retryable_failed) ⊎ (status ≡ JobStatus.terminal_failed)
      → Keeps (Holds G) (mark_failure o status retryable id error)
  unfolding mark_failure
  Holds-mark_failure status retryable id error s =
      search
        (
          leaves,
          Holds-require_job,
          Holds-record,
          λ (j : Uuid) (t : Time). sound_write (Change.fail_job j status error t) stable s,
        )
        depth 12

  pub Holds-mark_retryable_failure :
      (id : Uuid) (error : String) → Keeps (Holds G) (mark_retryable_failure o id error)
  unfolding mark_retryable_failure
  Holds-mark_retryable_failure id error = Holds-mark_failure _ true id error (inl refl)

  pub Holds-mark_terminal_failure :
      (id : Uuid) (error : String) → Keeps (Holds G) (mark_terminal_failure o id error)
  unfolding mark_terminal_failure
  Holds-mark_terminal_failure id error = Holds-mark_failure _ false id error (inr refl)
