-- ===== src/Invariants/Services/Reviews.antt =====
-- backend/app/services/prediction_review.py keeps the tables' properties.
use document_classifier_week.Prelude.{
  ◌≡◌, String, true, not, Option, none, some, string_eq, contains,
}
use document_classifier_week.Models.{Db, Uuid, Time, Document, Prediction, AuditEvent, Change}
use document_classifier_week.Session.{Outside, invalid_review_label}
use document_classifier_week.Session.Keeps.{Keeps, Keeps-guard}
use document_classifier_week.Session.Tables.{Holds}
use document_classifier_week.Repositories.Documents
use document_classifier_week.Repositories.Predictions
use document_classifier_week.Repositories.AuditEvents
use document_classifier_week.Authorization
use document_classifier_week.Audit.{record_event}
use document_classifier_week.Cache.Effects.{after_relabel-IsHarmless}
use document_classifier_week.PredictionReview.{
  rvl_cdip_classes, require_prediction, batch_of, cache_batch_id, check_and_apply, apply_label,
  relabel,
}
use document_classifier_week.Invariants.Sound.{IsStable, sound_write, not-false}
use document_classifier_week.Invariants.Leaves.{leaves, Holds-or_warn}

module _ (o : Outside) {G : Db → Type 0} (stable : IsStable G) where
  Holds-require_prediction : (p : Option Prediction) → Keeps (Holds G) (require_prediction o p)
  unfolding require_prediction
  Holds-require_prediction none = search leaves
  Holds-require_prediction (some p) = search leaves

  Holds-batch_of : (d : Option Document) → Keeps (Holds G) (batch_of o d)
  unfolding batch_of
  Holds-batch_of none = search leaves
  Holds-batch_of (some d) = search leaves

  Holds-cache_batch_id :
      (batch_id : Option Uuid) (p : Prediction) → Keeps (Holds G) (cache_batch_id o batch_id p)
  unfolding cache_batch_id Documents.get_by_id
  Holds-cache_batch_id none p = search (leaves, Holds-batch_of)
  Holds-cache_batch_id (some batch_id) p = search leaves

  Holds-get : (id : Uuid) → Keeps (Holds G) (Predictions.get_by_id o id)
  unfolding Predictions.get_by_id
  Holds-get id = search leaves

  Holds-apply_label :
      (id : Uuid) (p : Prediction) (normalized : String) (reviewer : Uuid) (batch_id : Option Uuid)
      (request_id : Option String)
      → contains normalized rvl_cdip_classes ≡ true
      → Keeps (Holds G) (apply_label o id p normalized reviewer batch_id request_id)
  unfolding apply_label record_event AuditEvents.create
  Holds-apply_label id p normalized reviewer batch_id request_id v =
      search
        (
          leaves,
          λ (t : Time). sound_write (Change.relabel p.id normalized reviewer t) stable v,
          λ (e : AuditEvent). sound_write (Change.add_audit e) stable tt,
          Holds-cache_batch_id,
          Holds-or_warn,
          after_relabel-IsHarmless,
        )
        depth 14

  Holds-check_and_apply :
      (id : Uuid) (p : Prediction) (normalized : String) (reviewer : Uuid) (batch_id : Option Uuid)
      (request_id : Option String)
      → Keeps (Holds G) (check_and_apply o id p normalized reviewer batch_id request_id)
  unfolding check_and_apply
  Holds-check_and_apply id p normalized reviewer batch_id request_id =
      Keeps-guard (not (contains normalized rvl_cdip_classes)) invalid_review_label _
        (λ v. Holds-apply_label id p normalized reviewer batch_id request_id (not-false v))

  pub Holds-relabel :
      (id : Uuid) (label : String) (reviewer : Uuid) (batch_id : Option Uuid)
      (request_id : Option String)
      → Keeps (Holds G) (relabel o id label reviewer batch_id request_id)
  unfolding relabel Authorization.require_permission
  Holds-relabel id label reviewer batch_id request_id =
      search (leaves, Holds-get, Holds-require_prediction, Holds-check_and_apply) depth 14
