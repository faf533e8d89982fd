-- ===== src/Guards/Jobs.antt =====
-- What a classification that was persisted has done, and a job that is not there.
pub mod Parts
use document_classifier_week.Prelude.{
  ◌≡◌, refl, sym, ◌∙◌, ap, String, true, Option, none, some, List, [], ◌∷◌, ◌==◌, nat_eq, arith,
  str, select, select-skip, All, Bool, not, false, ◌||◌, ◌⊎◌, inl, inr, Bool-cases, if◌then◌else◌,
}
use document_classifier_week.Models.{
  Uuid, Time, Db, Change, apply, Float, float_lt, review_confidence_threshold, Prediction,
  OverlayAsset, JobStatus, ClassificationJob, Details, AuditEvent,
}
use document_classifier_week.Session.{
  Outside, classification_error, database_error, World, ok, err, step, fail, uuid4, rollback, rows,
  scalar_one_or_none, in_session,
}
use document_classifier_week.Session.Laws.{bind_ok, bind_err}
use document_classifier_week.Session.Ensures.{
  Ensures, Ensures-pure, Ensures-raise, Ensures-bind, Ensures-write, Ensures-statement, Ensures-now,
  Ensures-commit, Ensures-one_row, to_list,
}
use document_classifier_week.Repositories.Jobs
use document_classifier_week.Repositories.Predictions
use document_classifier_week.Cache.Effects.{after_classification-IsHarmless}
use document_classifier_week.ClassificationJobs.{
  found_job, require_job, create_prediction, finish_job, persist_result,
}
use document_classifier_week.InferenceWorker.{active_job, run_job, classify_document}
use document_classifier_week.Guards.Steps.{
  Ensures-require_permission, Ensures-record, Ensures-or_warn, Ensures-uuid4,
}
use document_classifier_week.Guards.Jobs.Parts.{
  new_prediction, new_overlay, with_prediction, classified_event, with_success, Ensures-create,
  Ensures-create_overlay, Ensures-create_prediction, Ensures-found_job, Ensures-require_job,
  Ensures-finish_job,
}

-- The new prediction leaves the jobs alone.
jobs_of :
    (a : OverlayAsset) (p : Prediction) (db : Db) (job : Uuid) {db' : Db} {j : ClassificationJob}
    → db' ≡ with_prediction p a db
    → select (λ j. j.id == job) db'.classification_jobs ≡ j ∷ []
    → select (λ j. j.id == job) db.classification_jobs ≡ j ∷ []
unfolding apply
jobs_of a p db job e found =
    sym (ap (λ x. select (λ j. j.id == job) x.classification_jobs) e) ∙ found

-- What a `persist_result` that returned `q`, with the committed tables `db'`, has found and done.
abbrev pub IsPersisted :
    Uuid
    → Uuid
    → Uuid
    → String
    → Float
    → List (String × Float)
    → String
    → String
    → Db
    → Prediction
    → Db
    → Type 0
IsPersisted job doc meta class confidence scores bucket key db q db' =
    (j : ClassificationJob) × (overlay_id : Uuid) × (t : Time) × (select (λ j. j.id == job)
        db.classification_jobs
      ≡ j ∷ [])
    × (q ≡ new_prediction q.id doc meta class confidence scores)
    × (db' ≡ with_success j doc q t (with_prediction q (new_overlay overlay_id q.id bucket key) db))

-- a job that has ended, in success or in failure
abbrev is_over : JobStatus → Bool
is_over JobStatus.succeeded = true
is_over JobStatus.retryable_failed = true
is_over JobStatus.terminal_failed = true
is_over JobStatus.queued = false
is_over JobStatus.running = false

-- the job is another document's, or over
abbrev pub IsOverFor : Uuid → ClassificationJob → Type 0
IsOverFor doc j = (not (j.document_id == doc) || is_over j.status) ≡ true

inactive : (doc : Uuid) (j : ClassificationJob) → IsOverFor doc j → Jobs.is_active_of doc j ≡ false
inactive doc j h = ground arith

module _ (o : Outside) where
  Ensures-persist_result :
      (job doc meta : Uuid) (class : String) (confidence : Float) (scores : List (String × Float))
      (bucket key : String) (batch : Uuid) (w : World)
      → Ensures w
          (persist_result o job doc meta class confidence scores bucket key batch)
          (λ q v. IsPersisted job doc meta class confidence scores bucket key w.db q v.saved)
  unfolding persist_result
  Ensures-persist_result job doc meta class confidence scores bucket key batch w =
      Ensures-bind (Ensures-create_prediction o doc meta class confidence scores bucket key w)
        (λ p w1 (built, (overlay_id, e1)).
          Ensures-bind (Ensures-finish_job o job doc p w1) (λ _ w2 (j, t, found, e2).
            Ensures-bind (Ensures-commit o w2) (λ _ w3 e3.
              Ensures-bind (Ensures-or_warn o _ (after_classification-IsHarmless o batch p.id) w3)
                (λ _ w4 e4. Ensures-pure p w4 (
                  j,
                  overlay_id,
                  t,
                  jobs_of (new_overlay overlay_id p.id bucket key) p w.db job e1 found,
                  built,
                  e4 ∙ ap (λ x. x.saved) e3 ∙ e2 ∙ ap (with_success j doc p t) e1,
                )))))

  -- If `persist_result` returns, then exactly one job has the identifier; the result is a new
  -- prediction without review, eligible for review exactly if the confidence is below the threshold;
  -- and the committed tables are those that the session saw, with this prediction, its overlay, the job succeeded
  -- and one audit event.
  pub persist_result-returns :
      (job doc meta : Uuid) (class : String) (confidence : Float) (scores : List (String × Float))
      (bucket key : String) (batch : Uuid) (w : World) (q : Prediction) (v : World)
      → persist_result o job doc meta class confidence scores bucket key batch w ≡ (ok q, v)
      → IsPersisted job doc meta class confidence scores bucket key w.db q v.saved
  persist_result-returns job doc meta class confidence scores bucket key batch w q v h =
      (Ensures-persist_result job doc meta class confidence scores bucket key batch w).at q v h

  no_job :
      (doc meta : Uuid) (w : World)
      → w.active ≡ true
      → select (Jobs.is_active_of doc) w.db.classification_jobs ≡ []
      → (run_job o doc meta w ≡ (err classification_error, step w))
        ⊎ (run_job o doc meta w ≡ (err database_error, fail w))
  unfolding run_job Jobs.get_active_by_document rows scalar_one_or_none active_job
  no_job doc meta w a e = elim (Bool-cases (o.database_fails w.tick)) [
    | inl d ↦ inr (
        bind_err (Jobs.get_active_by_document o doc) _ {exc = database_error} {w' = fail w} (
          bind_err (rows o (λ db. select (Jobs.is_active_of doc) db.classification_jobs)) _
            {exc = database_error} {w' = fail w} (rw (a, d, if◌then◌else◌))))
    | inr d ↦ inl (
        bind_ok (Jobs.get_active_by_document o doc) _ {a = none} {w' = step w} (
          bind_ok (rows o (λ db. select (Jobs.is_active_of doc) db.classification_jobs)) _ {a = []}
            {w' = step w} (rw (a, d, if◌then◌else◌, e))))
  ]

  over-inactive :
      (doc : Uuid) (jobs : List ClassificationJob)
      → All (IsOverFor doc) jobs
      → select (Jobs.is_active_of doc) jobs ≡ []
  over-inactive doc [] h = refl
  over-inactive doc (j ∷ jobs) (h, hs) =
      select-skip (Jobs.is_active_of doc) j jobs (inactive doc j h) ∙ over-inactive doc jobs hs

  -- If every job of the document has ended, also one whose failure was marked retryable, then
  -- `classify_document` raises `ClassificationError` (or the database's error) and commits nothing:
  -- it does not take the failed job up again.
  pub classify_document-no_job :
      (doc meta : Uuid) (w : World)
      → All (IsOverFor doc) w.saved.classification_jobs
      → (((classify_document o doc meta w).0 ≡ err classification_error)
          ⊎ ((classify_document o doc meta w).0 ≡ err database_error))
        × ((classify_document o doc meta w).1.saved ≡ w.saved)
  unfolding classify_document in_session rollback
  classify_document-no_job doc meta w over =
      elim (no_job doc meta (rollback w) refl
        (over-inactive doc w.saved.classification_jobs over)) [
          | inl h ↦ (inl (rw (h)), rw (h))
          | inr h ↦ (inr (rw (h)), rw (h))
        ]
