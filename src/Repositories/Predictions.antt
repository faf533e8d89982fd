-- ===== src/Repositories/Predictions.antt =====
-- backend/app/repositories/predictions.py
use document_classifier_week.Prelude.{ℕ, Option, List, ◌==◌, nat_eq, select, take, drop}
use document_classifier_week.Models.{Change, Uuid, Prediction, OverlayAsset}
use document_classifier_week.Session.{
  Outside, M, pure, write, ◌>>=◌, ◌>>◌, statement, rows, rows_at, scalar_one_or_none,
}

module _ (o : Outside) where
  unfoldable pub get_by_id : Uuid → M (Option Prediction)
  get_by_id prediction_id = do
    found ← rows o (λ db. select (λ p. p.id == prediction_id) db.predictions)
    scalar_one_or_none found

  unfoldable pub create : Prediction → M Prediction
  create p = do write (Change.add_prediction p); statement o; pure p

  unfoldable pub create_overlay : OverlayAsset → M OverlayAsset
  create_overlay a = do write (Change.add_overlay a); statement o; pure a

  unfoldable pub get_overlay_by_prediction : Uuid → M (Option OverlayAsset)
  get_overlay_by_prediction prediction_id = do
    found ← rows o (λ db. select (λ a. a.prediction_id == prediction_id) db.overlay_assets)
    scalar_one_or_none found

  unfoldable pub get_by_document_id : Uuid → M (Option Prediction)
  get_by_document_id document_id = do
    found ←
        rows_at o (λ t db.
          o.newest_predictions t (select (λ p. p.document_id == document_id) db.predictions))
    scalar_one_or_none found

  unfoldable pub list_review_eligible : ℕ → ℕ → M (List Prediction)
  list_review_eligible limit offset = rows_at o (λ t db.
      take limit
        (drop offset (o.newest_predictions t (select (λ p. p.review_eligible) db.predictions))))

  unfoldable pub list_recent : ℕ → ℕ → M (List Prediction)
  list_recent limit offset =
      rows_at o (λ t db. take limit (drop offset (o.newest_predictions t db.predictions)))
