-- ===== src/Api/Predictions.antt =====
-- backend/app/api/predictions.py
use document_classifier_week.Prelude.{
  ℕ, String, Bool, true, false, ◌&&◌, Option, none, some, List, [], ◌∷◌,
}
use document_classifier_week.Models.{Uuid, Time, Bytes, Float, Document, Prediction, OverlayAsset}
use document_classifier_week.Session.{
  Outside, Error, prediction_not_found, review_not_eligible, invalid_review_label,
  permission_denied, http_exception, M, pure, raise, raise_if, catch, ◌>>=◌, ◌>>◌,
}
use document_classifier_week.Repositories.Documents
use document_classifier_week.Repositories.Predictions
use document_classifier_week.Minio
use document_classifier_week.PredictionReview
use document_classifier_week.Api.Dependencies.{require_permission, check_limit}

pub record ReviewPredictionRequest : Type 0 where
  pub reviewed_label : Option String
  pub corrected_label : Option String

-- the property `label`
abbrev pub label : ReviewPredictionRequest → Option String
label r = elim r.reviewed_label [ none ↦ r.corrected_label | some l ↦ some l ]

-- `PredictionRead`, without its timestamp
pub record PredictionRead : Type 0 where
  pub id : Uuid
  pub document_id : Uuid
  pub source_filename : Option String
  pub predicted_class : String
  pub top1_confidence : Float
  pub class_scores : List (String × Float)
  pub review_eligible : Bool
  pub review_label : Option String
  pub reviewed_by_user_id : Option Uuid
  pub reviewed_at : Option Time
  pub overlay_blob_key : Option String

abbrev filename_of : Option Document → Option String
filename_of none = none
filename_of (some d) = some d.source_filename

abbrev key_of : Option OverlayAsset → Option String
key_of none = none
key_of (some a) = some a.blob_key

abbrev pub is_given : Option String → Bool
is_given none = false
is_given (some s) = true

-- the `except` clauses of `review_prediction`
abbrev pub review_error : Error → Error
review_error prediction_not_found = http_exception 404
review_error invalid_review_label = http_exception 422
review_error review_not_eligible = http_exception 409
review_error permission_denied = http_exception 403
review_error e = e

unfoldable pub require_label : Option String → M String
require_label none = raise (http_exception 422)
require_label (some l) = pure l

unfoldable pub require_found : {A : Type 0} → Option A → M A
require_found none = raise (http_exception 404)
require_found (some a) = pure a

module _ (o : Outside) where
  -- `prediction.document` loads the document.
  unfoldable pub prediction_to_read : Prediction → Option OverlayAsset → M PredictionRead
  prediction_to_read p overlay = do
    d ← Documents.get_by_id o p.document_id
    pure (record {
      id = p.id;
      document_id = p.document_id;
      source_filename = filename_of d;
      predicted_class = p.predicted_class;
      top1_confidence = p.top1_confidence;
      class_scores = p.class_scores;
      review_eligible = p.review_eligible;
      review_label = p.review_label;
      reviewed_by_user_id = p.reviewed_by_user_id;
      reviewed_at = p.reviewed_at;
      overlay_blob_key = key_of overlay;
    })

  -- one element of the comprehension
  unfoldable pub read_with_overlay : Prediction → M PredictionRead
  read_with_overlay p = do
    overlay ← Predictions.get_overlay_by_prediction o p.id
    prediction_to_read p overlay

  unfoldable pub read_each : List Prediction → M (List PredictionRead)
  read_each [] = pure []
  read_each (p ∷ predictions) = do
    read ← read_with_overlay p
    reads ← read_each predictions
    pure (read ∷ reads)

  -- `if review_eligible is True`
  unfoldable pub recent : Option Bool → ℕ → ℕ → M (List Prediction)
  recent (some true) limit offset = Predictions.list_review_eligible o limit offset
  recent (some false) limit offset = Predictions.list_recent o limit offset
  recent none limit offset = Predictions.list_recent o limit offset

  unfoldable pub list_recent_predictions : Uuid → Option Bool → ℕ → ℕ → M (List PredictionRead)
  list_recent_predictions user review_eligible limit offset = do
    require_permission o user "predictions" "read"
    check_limit limit
    predictions ← recent review_eligible limit offset
    read_each predictions

  unfoldable pub get_prediction : Uuid → Uuid → M PredictionRead
  get_prediction user prediction_id = do
    require_permission o user "predictions" "read"
    found ← Predictions.get_by_id o prediction_id
    prediction ← require_found found
    overlay ← Predictions.get_overlay_by_prediction o prediction_id
    prediction_to_read prediction overlay

  -- the body of the streamed PNG
  unfoldable pub get_prediction_overlay : Uuid → Uuid → M Bytes
  get_prediction_overlay user prediction_id = do
    require_permission o user "predictions" "read"
    found ← Predictions.get_overlay_by_prediction o prediction_id
    overlay ← require_found found
    Minio.download_file o overlay.blob_bucket overlay.blob_key

  unfoldable pub relabel_prediction : Uuid → M Unit
  relabel_prediction user = do
    require_permission o user "predictions" "relabel"
    raise (http_exception 501)

  -- the `try` of `review_prediction`
  unfoldable pub review_as : Uuid → String → Uuid → M Prediction
  review_as prediction_id review_label reviewer =
      catch (PredictionReview.relabel o prediction_id review_label reviewer none none)
        (λ e. raise (review_error e))

  unfoldable pub review_prediction : Uuid → Uuid → ReviewPredictionRequest → M Prediction
  review_prediction user prediction_id request = do
    reviewer ← require_permission o user "predictions" "relabel"
    raise_if (is_given request.reviewed_label && is_given request.corrected_label)
        (http_exception 422)
    review_label ← require_label (label request)
    review_as prediction_id review_label reviewer
