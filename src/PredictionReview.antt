-- ===== src/PredictionReview.antt =====
-- backend/app/services/prediction_review.py
use document_classifier_week.Prelude.{
  String, not, ◌&&◌, Option, none, some, List, [], ◌∷◌, nat_eq, string_eq, contains, str,
}
use document_classifier_week.Models.{Uuid, Document, Prediction, Details, Change, as_relabelled}
use document_classifier_week.Session.{
  Outside, attribute_error, prediction_not_found, review_not_eligible, invalid_review_label, M,
  pure, raise, raise_if, ◌>>=◌, ◌>>◌, now, write, statement, commit,
}
use document_classifier_week.Repositories.Documents
use document_classifier_week.Repositories.Predictions
use document_classifier_week.Authorization
use document_classifier_week.Audit.{record_event}
use document_classifier_week.Cache.{or_warn, invalidate_after_relabel}

abbrev pub rvl_cdip_classes : List String
rvl_cdip_classes =
    "letter" ∷ "form" ∷ "email" ∷ "handwritten" ∷ "advertisement" ∷ "scientific report"
    ∷ "scientific publication" ∷ "specification" ∷ "file folder" ∷ "news article" ∷ "budget"
    ∷ "invoice" ∷ "presentation" ∷ "questionnaire" ∷ "resume" ∷ "memo" ∷ []

module _ (o : Outside) where
  unfoldable pub require_prediction : Option Prediction → M Prediction
  require_prediction none = raise prediction_not_found
  require_prediction (some p) = pure p

  -- `prediction.document.batch_id`, where the relationship loads the document
  unfoldable pub batch_of : Option Document → M Uuid
  batch_of none = raise attribute_error
  batch_of (some d) = pure d.batch_id

  unfoldable pub cache_batch_id : Option Uuid → Prediction → M Uuid
  cache_batch_id (some batch_id) p = pure batch_id
  cache_batch_id none p = do d ← Documents.get_by_id o p.document_id; batch_of d

  -- the steps after the guards
  unfoldable pub apply_label :
      Uuid → Prediction → String → Uuid → Option Uuid → Option String → M Prediction
  apply_label prediction_id prediction normalized reviewer_user_id batch_id request_id = do
    t ← now o
    write (Change.relabel prediction.id normalized reviewer_user_id t)
    statement o
    record_event o "prediction.relabeled" "success" (some reviewer_user_id) (some "prediction")
        (some (str prediction_id))
        (some (Details.relabel prediction.predicted_class normalized prediction.top1_confidence))
        request_id
    cached ← cache_batch_id batch_id prediction
    commit o
    or_warn (invalidate_after_relabel o cached prediction_id)
    pure (as_relabelled normalized reviewer_user_id t prediction)

  -- the last guard, on the normalized label
  unfoldable pub check_and_apply :
      Uuid → Prediction → String → Uuid → Option Uuid → Option String → M Prediction
  check_and_apply prediction_id prediction normalized reviewer_user_id batch_id request_id = do
    raise_if (not (contains normalized rvl_cdip_classes)) invalid_review_label
    apply_label prediction_id prediction normalized reviewer_user_id batch_id request_id

  unfoldable pub relabel : Uuid → String → Uuid → Option Uuid → Option String → M Prediction
  relabel prediction_id review_label reviewer_user_id batch_id request_id = do
    found ← Predictions.get_by_id o prediction_id
    prediction ← require_prediction found
    Authorization.require_permission o reviewer_user_id "predictions" "relabel"
    can_bypass_confidence ← Authorization.can o reviewer_user_id "roles" "manage"
    raise_if (not can_bypass_confidence && not prediction.review_eligible) review_not_eligible
    check_and_apply prediction_id prediction (o.strip_lower review_label) reviewer_user_id batch_id
        request_id
