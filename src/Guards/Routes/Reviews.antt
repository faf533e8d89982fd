-- ===== src/Guards/Routes/Reviews.antt =====
-- What a review through the API has checked and done.
use document_classifier_week.Prelude.{
  ◌≡◌, refl, ◌∙◌, subst, String, true, false, ◌&&◌, Option, none, some, str,
}
use document_classifier_week.Models.{Uuid, Prediction}
use document_classifier_week.Session.{Outside, World, raise, ok, step}
use document_classifier_week.Session.Ensures.{
  Ensures, Ensures-pure, Ensures-raise, Ensures-bind, Ensures-guard, Ensures-catch,
}
use document_classifier_week.Authorization.{enforce}
use document_classifier_week.PredictionReview.{relabel}
use document_classifier_week.Guards.Steps.{Ensures-require_permission}
use document_classifier_week.Guards.Reviews.{IsReviewed, relabel-returns}
use document_classifier_week.Api.Dependencies.{require_permission}
use document_classifier_week.Api.Predictions.{
  ReviewPredictionRequest, review_prediction, review_as, require_label, review_error, is_given,
  label,
}

module _ (o : Outside) where
  pub Ensures-permission :
      (user : Uuid) (resource action : String) (w : World)
      → Ensures w (require_permission o user resource action) (λ u v.
        (u ≡ user) × (enforce o w.policies (str user) resource action ≡ true) × (v ≡ step w))
  unfolding require_permission
  Ensures-permission user resource action w =
      Ensures-bind
        (Ensures-catch (Ensures-require_permission o user resource action w)
          (λ e u. Ensures-raise _ u))
        (λ _ v (allowed, stepped). Ensures-pure user v (refl, allowed, stepped))

  Ensures-require_label :
      (l : Option String) (w : World) → Ensures w (require_label l) (λ s v. (l ≡ some s) × (v ≡ w))
  unfolding require_label
  Ensures-require_label none w = Ensures-raise _ w
  Ensures-require_label (some l) w = Ensures-pure l w (refl, refl)

-- The request gives `l` as one of its two labels, and leaves the other out.
abbrev pub Gives : ReviewPredictionRequest → String → Type 0
Gives request l =
    (label request ≡ some l)
    × (is_given request.reviewed_label && is_given request.corrected_label ≡ false)

module _ (o : Outside) where
  Ensures-review_as :
      (id : Uuid) (l : String) (reviewer : Uuid) (w : World)
      → Ensures w
          (review_as o id l reviewer)
          (λ q v. IsReviewed o id (o.strip_lower l) reviewer none w q v.saved)
  unfolding review_as
  Ensures-review_as id l reviewer w =
      Ensures-catch {m = relabel o id l reviewer none none} {handler = λ e. raise (review_error e)}
        (record { at = relabel-returns o id l reviewer none none w }) (λ e u. Ensures-raise _ u)

  Ensures-review_prediction :
      (user id : Uuid) (request : ReviewPredictionRequest) (w : World)
      → Ensures w (review_prediction o user id request) (λ q v.
        (l : String) × Gives request l × IsReviewed o id (o.strip_lower l) user none w q v.saved)
  unfolding review_prediction
  Ensures-review_prediction user id request w =
      Ensures-bind (Ensures-permission o user "predictions" "relabel" w)
        (λ reviewer w1 (same, allowed, e1).
          Ensures-guard (is_given request.reviewed_label && is_given request.corrected_label) _ _
            (λ one. Ensures-bind (Ensures-require_label o (label request) w1) (λ l w2 (given, e2).
              record {
                at = λ q v h. (
                  l,
                  (given, one),
                  subst {A = Uuid × World}
                      (λ (u, x). IsReviewed o id (o.strip_lower l) u none x q v.saved)
                      (λ i. (same i, (e2 ∙ e1) i)) ((Ensures-review_as id l reviewer w2).at q v h),
                );
              })))

  -- If the route `review_prediction` answers with a prediction, then the request gave exactly one label,
  -- and all of `relabel-returns` holds of this label (normalized) and the user of the request: exactly
  -- one prediction has the identifier, the user may relabel, the prediction is eligible or the user
  -- manages roles, the label is one of the 16 classes, and the committed tables are those that the
  -- session saw with that one change and one audit event.
  pub review_prediction-returns :
      (user id : Uuid) (request : ReviewPredictionRequest) (w : World) (q : Prediction) (v : World)
      → review_prediction o user id request w ≡ (ok q, v)
      → (l : String) × Gives request l × IsReviewed o id (o.strip_lower l) user none w q v.saved
  review_prediction-returns user id request w q v h =
      (Ensures-review_prediction user id request w).at q v h
