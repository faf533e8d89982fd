-- ===== src/Guards/Jobs/Parts.antt =====
-- The parts of `persist_result`: the prediction with its overlay, and the end of the job.
use document_classifier_week.Prelude.{
  ◌≡◌, refl, sym, ◌∙◌, ap, String, Option, none, some, List, [], ◌∷◌, ◌==◌, nat_eq, str, select,
}
use document_classifier_week.Models.{
  Uuid, Time, Db, Change, apply, Float, float_lt, review_confidence_threshold, Prediction,
  OverlayAsset, ClassificationJob, Details, AuditEvent,
}
use document_classifier_week.Session.{Outside, World, step}
use document_classifier_week.Session.Ensures.{
  Ensures, Ensures-pure, Ensures-raise, Ensures-bind, Ensures-write, Ensures-statement, Ensures-now,
  Ensures-one_row, to_list,
}
use document_classifier_week.Repositories.Jobs
use document_classifier_week.Repositories.Predictions
use document_classifier_week.ClassificationJobs.{
  found_job, require_job, create_prediction, finish_job,
}
use document_classifier_week.Guards.Steps.{Ensures-record, Ensures-uuid4}

-- a prediction that `persist_result` has just built
abbrev pub new_prediction : Uuid → Uuid → Uuid → String → Float → List (String × Float) → Prediction
new_prediction id document_id meta class confidence scores = record {
  id = id;
  document_id = document_id;
  model_metadata_id = meta;
  predicted_class = class;
  top1_confidence = confidence;
  class_scores = scores;
  review_eligible = float_lt confidence review_confidence_threshold;
  review_label = none;
  reviewed_by_user_id = none;
  reviewed_at = none;
}

abbrev pub new_overlay : Uuid → Uuid → String → String → OverlayAsset
new_overlay id prediction_id bucket key = record {
  id = id;
  prediction_id = prediction_id;
  blob_bucket = bucket;
  blob_key = key;
  content_type = "image/png";
}

-- the tables once a prediction and its overlay are added
abbrev pub with_prediction : Prediction → OverlayAsset → Db → Db
with_prediction p a db = apply (Change.add_overlay a) (apply (Change.add_prediction p) db)

-- the event of a classification
abbrev pub classified_event : Uuid → Prediction → AuditEvent
classified_event document_id p = record {
  actor_user_id = none;
  action = "document.classified";
  target_type = some "prediction";
  target_id = some (str p.id);
  outcome = "success";
  details =
      some (Details.classified document_id p.predicted_class p.top1_confidence p.review_eligible);
  request_id = none;
}

-- the tables once the job is succeeded and the event recorded
abbrev pub with_success : ClassificationJob → Uuid → Prediction → Time → Db → Db
with_success j document_id p t db =
    apply (Change.add_audit (classified_event document_id p)) (apply (Change.succeed_job j.id t) db)

module _ (o : Outside) where
  pub Ensures-create :
      (p : Prediction) (w : World)
      → Ensures w
          (Predictions.create o p)
          (λ q v. (q ≡ p) × (v.db ≡ apply (Change.add_prediction p) w.db))
  unfolding Predictions.create
  Ensures-create p w = Ensures-bind (Ensures-write (Change.add_prediction p) w) (λ _ w1 e1.
      Ensures-bind (Ensures-statement o w1)
        (λ _ w2 e2. Ensures-pure p w2 (refl, ap (λ x. x.db) (e2 ∙ ap step e1))))

  pub Ensures-create_overlay :
      (a : OverlayAsset) (w : World)
      → Ensures w (Predictions.create_overlay o a) (λ q v. v.db ≡ apply (Change.add_overlay a) w.db)
  unfolding Predictions.create_overlay
  Ensures-create_overlay a w = Ensures-bind (Ensures-write (Change.add_overlay a) w) (λ _ w1 e1.
      Ensures-bind (Ensures-statement o w1)
        (λ _ w2 e2. Ensures-pure a w2 (ap (λ x. x.db) (e2 ∙ ap step e1))))

  pub Ensures-create_prediction :
      (doc meta : Uuid) (class : String) (confidence : Float) (scores : List (String × Float))
      (bucket key : String) (w : World)
      → Ensures w (create_prediction o doc meta class confidence scores bucket key) (λ p v.
        (p ≡ new_prediction p.id doc meta class confidence scores)
        × ((id : Uuid) × (v.db ≡ with_prediction p (new_overlay id p.id bucket key) w.db)))
  unfolding create_prediction
  Ensures-create_prediction doc meta class confidence scores bucket key w =
      Ensures-bind (Ensures-uuid4 o w) (λ id w1 e1.
        Ensures-bind (Ensures-create (new_prediction id doc meta class confidence scores) w1)
          (λ p w2 (built, e2). Ensures-bind (Ensures-uuid4 o w2) (λ overlay_id w3 e3.
            Ensures-bind (Ensures-create_overlay (new_overlay overlay_id p.id bucket key) w3)
              (λ _ w4 e4. Ensures-pure p w4 (
                built
                    ∙ ap (λ i. new_prediction i doc meta class confidence scores)
                        (sym (ap (λ x. x.id) built)),
                (
                  overlay_id,
                  e4
                      ∙ ap (apply (Change.add_overlay (new_overlay overlay_id p.id bucket key))) (
                          e3
                          ∙ e2
                          ∙ ap
                              (λ db.
                                apply
                                  (Change.add_prediction
                                    (new_prediction id doc meta class confidence scores))
                                  db)
                              e1
                          ∙ ap (λ q. apply (Change.add_prediction q) w.db) (sym built)),
                ),
              )))))

  pub Ensures-found_job :
      (r : Option ClassificationJob) (w : World)
      → Ensures w (found_job o r) (λ j v. (r ≡ some j) × (v ≡ w))
  unfolding found_job
  Ensures-found_job none w = Ensures-raise _ w
  Ensures-found_job (some j) w = Ensures-pure j w (refl, refl)

  pub Ensures-require_job :
      (id : Uuid) (w : World)
      → Ensures w
          (require_job o id)
          (λ j v. (select (λ j. j.id == id) w.db.classification_jobs ≡ j ∷ []) × (v ≡ step w))
  unfolding require_job Jobs.get_by_id
  Ensures-require_job id w =
      Ensures-bind (Ensures-one_row o (λ db. select (λ j. j.id == id) db.classification_jobs) w)
        (λ r w1 (e1, found). record {
          at = λ j v h.
              let (some_j, same) = (Ensures-found_job r w1).at j v h in
              (found ∙ ap to_list some_j, same ∙ e1);
        })

  pub Ensures-finish_job :
      (id doc : Uuid) (p : Prediction) (w : World)
      → Ensures w (finish_job o id doc p) (λ a v.
        (j : ClassificationJob) × (t : Time) × (select (λ j. j.id == id) w.db.classification_jobs
          ≡ j ∷ [])
        × (v.db ≡ with_success j doc p t w.db))
  unfolding finish_job
  Ensures-finish_job id doc p w = Ensures-bind (Ensures-require_job id w) (λ j w1 (found, e1).
      Ensures-bind (Ensures-now o w1) (λ t w2 e2.
        Ensures-bind (Ensures-write (Change.succeed_job j.id t) w2) (λ _ w3 e3.
          Ensures-bind (Ensures-statement o w3) (λ _ w4 e4.
            Ensures-bind (Ensures-record o _ _ _ _ _ _ _ w4) (λ _ w5 e5. Ensures-pure tt w5 (
              j,
              t,
              found,
              ap (λ x. x.db) e5
                  ∙ ap (apply (Change.add_audit (classified_event doc p))) (
                      ap (λ x. x.db) (e4 ∙ ap step e3)
                      ∙ ap (λ x. apply (Change.succeed_job j.id t) x.db) (e2 ∙ ap step e1)),
            ))))))
