-- ===== src/Guards/Ingestions/Parts.antt =====
-- The parts of an ingestion: the pending document, the stored file, the queued job.
use document_classifier_week.Prelude.{
  ◌≡◌, refl, sym, ◌∙◌, ap, String, ◌<>◌, Bool, true, false, not, Option, none, some, [], arith, str,
  select,
}
use document_classifier_week.Models.{
  Uuid, Time, Bytes, Db, Change, apply, Document, Batch, BatchStatus, JobStatus, as_stored,
  ClassificationJob,
}
use document_classifier_week.Session.{Outside, unsupported_file_type, World, step}
use document_classifier_week.Session.Ensures.{
  Ensures, Ensures-pure, Ensures-raise, Ensures-bind, Ensures-write, Ensures-statement, Ensures-now,
  Ensures-guard, Ensures-one_row, Ensures-catch, to_list,
}
use document_classifier_week.Repositories.Documents
use document_classifier_week.Repositories.Batches
use document_classifier_week.Repositories.Jobs
use document_classifier_week.Minio.{upload_file, upload_original, originals_bucket}
use document_classifier_week.Ingestion.{
  is_tiff, or_root, new_document, validate_tiff, reject_duplicate, create_batch, upload_to_storage,
  enqueue_classification_job, create_document, store_and_enqueue,
}
use document_classifier_week.Guards.Steps.{Ensures-uuid4}

pub not-false : (b : Bool) → not b ≡ false → b ≡ true
not-false b h = ground arith

-- a batch that `ingest_file` has just built
abbrev pub new_batch : Uuid → String → Batch
new_batch id source = record {
  id = id;
  source = source;
  status = BatchStatus.processing;
  document_count = 0;
  reviewable_count = 0;
}

-- the tables once the batch and its pending document are added
abbrev pub with_document : Batch → Document → Db → Db
with_document b d db = apply (Change.add_document d) (apply (Change.add_batch b) db)

module _ (o : Outside) where
  pub Ensures-reject_duplicate :
      (d : Option Document) (w : World)
      → Ensures w (reject_duplicate o d) (λ a v. (d ≡ none) × (v ≡ w))
  unfolding reject_duplicate
  Ensures-reject_duplicate none w = Ensures-pure tt w (refl, refl)
  Ensures-reject_duplicate (some d) w = Ensures-raise _ w

  pub Ensures-create_batch :
      (path : String) (w : World)
      → Ensures w (create_batch o path) (λ b v.
        (b ≡ new_batch b.id (or_root (o.dirname path))) × (v.db ≡ apply (Change.add_batch b) w.db))
  unfolding create_batch Batches.create
  Ensures-create_batch path w = Ensures-bind (Ensures-uuid4 o w) (λ id w1 e1.
      Ensures-bind (Ensures-write (Change.add_batch _) w1) (λ _ w2 e2.
        Ensures-bind (Ensures-statement o w2) (λ _ w3 e3. Ensures-pure _ w3 (
          refl,
          ap (λ x. x.db) (e3 ∙ ap step e2)
              ∙ ap (apply (Change.add_batch (new_batch id (or_root (o.dirname path))))) e1,
        ))))

  pub Ensures-create_document :
      (path name : String) (content : Bytes) (w : World)
      → Ensures w (create_document o path name content) (λ (b, d) v.
        (is_tiff content ≡ true)
        × (select (Documents.is_active_duplicate (o.sha256 content) path) w.db.documents ≡ [])
        × (b ≡ new_batch b.id (or_root (o.dirname path)))
        × (d ≡ new_document d.id b.id path name content (o.sha256 content))
        × (v.db ≡ with_document b d w.db))
  unfolding create_document validate_tiff Documents.find_active_duplicate Documents.create
  Ensures-create_document path name content w =
      Ensures-guard (not (is_tiff content)) unsupported_file_type _ (λ tiff.
        Ensures-bind
          (Ensures-one_row o
            (λ db. select (Documents.is_active_duplicate (o.sha256 content) path) db.documents) w)
          (λ r w1 (e1, found). Ensures-bind (Ensures-reject_duplicate r w1) (λ _ w2 (fresh, e2).
            Ensures-bind (Ensures-create_batch path w2) (λ b w3 (is_batch, e3).
              Ensures-bind (Ensures-uuid4 o w3) (λ id w4 e4.
                Ensures-bind
                  (Ensures-bind (Ensures-write (Change.add_document _) w4) (λ _ w5 e5.
                    Ensures-bind (Ensures-statement o w5) (λ _ w6 e6.
                      Ensures-pure
                        {Q = λ d v.
                          (d ≡ new_document id b.id path name content (o.sha256 content))
                          × (v.db ≡ apply (Change.add_document d) w4.db)}
                        _ w6 (refl, ap (λ x. x.db) (e6 ∙ ap step e5)))))
                  (λ d w7 (is_document, e7). Ensures-pure _ w7 (
                    not-false _ tiff,
                    found ∙ ap to_list fresh,
                    is_batch,
                    is_document
                        ∙ ap (λ i. new_document i b.id path name content (o.sha256 content))
                            (sym (ap (λ x. x.id) is_document)),
                    e7
                        ∙ ap (apply (Change.add_document d))
                            (e4 ∙ e3 ∙ ap (λ x. apply (Change.add_batch b) x.db) (e2 ∙ e1)),
                  )))))))

-- a job that `ingest_file` has just built
abbrev pub new_job : Uuid → Uuid → String → Time → ClassificationJob
new_job id document_id rq_job_id t = record {
  id = id;
  document_id = document_id;
  rq_job_id = some rq_job_id;
  status = JobStatus.queued;
  attempt_count = 1;
  last_error = none;
  enqueued_at = some t;
  started_at = none;
  finished_at = none;
}

abbrev pub key_of : Document → String
key_of d = str d.id <> ".tiff"

-- the tables once the file of `d` is stored and its job `j` is added
abbrev pub with_job : Document → ClassificationJob → Db → Db
with_job d j db =
    apply (Change.add_job j) (apply (Change.store_document d.id originals_bucket (key_of d)) db)

module _ (o : Outside) where
  pub Ensures-upload_file :
      (bucket key : String) (content : Bytes) (w : World)
      → Ensures w (upload_file o bucket key content) (λ a v. v.db ≡ w.db)
  unfolding upload_file
  Ensures-upload_file bucket key content w = record { at = λ a v h. ground arith }

  pub Ensures-upload_to_storage :
      (id : Uuid) (content : Bytes) (w : World)
      → Ensures w
          (upload_to_storage o id content)
          (λ r v. (r ≡ (originals_bucket, str id <> ".tiff")) × (v.db ≡ w.db))
  unfolding upload_to_storage upload_original
  Ensures-upload_to_storage id content w =
      Ensures-catch
        (Ensures-bind (Ensures-upload_file originals_bucket (str id <> ".tiff") content w)
          (λ _ w1 e1. Ensures-pure _ w1 (refl, e1)))
        (λ e u. Ensures-raise _ u)

  pub Ensures-enqueue :
      (id meta : Uuid) (w : World)
      → Ensures w (enqueue_classification_job o id meta) (λ a v. v.db ≡ w.db)
  unfolding enqueue_classification_job
  Ensures-enqueue id meta w = record { at = λ a v h. ground arith }

  pub Ensures-create_job :
      (j : ClassificationJob) (w : World)
      → Ensures w (Jobs.create o j) (λ a v. v.db ≡ apply (Change.add_job j) w.db)
  unfolding Jobs.create
  Ensures-create_job j w = Ensures-bind (Ensures-write (Change.add_job j) w) (λ _ w1 e1.
      Ensures-bind (Ensures-statement o w1)
        (λ _ w2 e2. Ensures-pure j w2 (ap (λ x. x.db) (e2 ∙ ap step e1))))

  pub Ensures-store_and_enqueue :
      (d : Document) (content : Bytes) (meta : Uuid) (w : World)
      → Ensures w (store_and_enqueue o d content meta) (λ r v.
        (r.0 ≡ as_stored originals_bucket (key_of d) d)
        × ((id : Uuid) × (t : Time) × (v.db ≡ with_job d (new_job id d.id r.1 t) w.db)))
  unfolding store_and_enqueue
  Ensures-store_and_enqueue d content meta w =
      Ensures-bind (Ensures-upload_to_storage d.id content w) (λ stored w1 (place, e1).
        Ensures-bind (Ensures-write (Change.store_document d.id stored.0 stored.1) w1) (λ _ w2 e2.
          Ensures-bind (Ensures-enqueue d.id meta w2) (λ rq w3 e3.
            Ensures-bind (Ensures-uuid4 o w3) (λ id w4 e4.
              Ensures-bind (Ensures-now o w4) (λ t w5 e5.
                Ensures-bind (Ensures-create_job (new_job id d.id rq t) w5) (λ _ w6 e6.
                  Ensures-pure _ w6 (
                    ap (λ s. as_stored s.0 s.1 d) place,
                    (
                      id,
                      t,
                      e6
                          ∙ ap (apply (Change.add_job (new_job id d.id rq t))) (
                              ap (λ x. x.db) e5
                              ∙ e4
                              ∙ e3
                              ∙ ap (λ x. x.db) e2
                              ∙ ap (λ db. apply (Change.store_document d.id stored.0 stored.1) db)
                                  e1
                              ∙ ap (λ s. apply (Change.store_document d.id s.0 s.1) w.db) place),
                    ),
                  )))))))
