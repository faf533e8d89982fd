-- ===== src/Invariants/Services/Files.antt =====
-- backend/app/services/ingestion.py keeps the tables' properties.
use document_classifier_week.Prelude.{ℕ, refl, String, Option, none, some}
use document_classifier_week.Models.{Db, Uuid, Bytes, Batch, Document, ClassificationJob, Change}
use document_classifier_week.Session.{Outside}
use document_classifier_week.Session.Keeps.{Keeps}
use document_classifier_week.Session.Tables.{Holds}
use document_classifier_week.Repositories.Batches
use document_classifier_week.Repositories.Documents
use document_classifier_week.Repositories.Jobs
use document_classifier_week.Cache.Effects.{batch_list-IsHarmless}
use document_classifier_week.Minio.{upload_original}
use document_classifier_week.Ingestion.{
  new_document, validate_tiff, reject_duplicate, create_batch, upload_to_storage, create_document,
  store_and_enqueue, ingest_file, mark_failed,
}
use document_classifier_week.Invariants.Sound.{IsSound, IsStable, sound_write}
use document_classifier_week.Invariants.Leaves.{leaves, Holds-or_warn}
use document_classifier_week.Invariants.Services.Jobs.{Holds-record}

module _ (o : Outside) {G : Db → Type 0} (stable : IsStable G) where
  Holds-validate_tiff : (content : Bytes) → Keeps (Holds G) (validate_tiff o content)
  unfolding validate_tiff
  Holds-validate_tiff content = search leaves

  Holds-reject_duplicate : (d : Option Document) → Keeps (Holds G) (reject_duplicate o d)
  unfolding reject_duplicate
  Holds-reject_duplicate none = search leaves
  Holds-reject_duplicate (some d) = search leaves

  Holds-create_batch : (path : String) → Keeps (Holds G) (create_batch o path)
  unfolding create_batch Batches.create
  Holds-create_batch path =
      search (leaves, λ (b : Batch). sound_write (Change.add_batch b) stable tt) depth 12

  Holds-create :
      (d : Document) → IsSound (Change.add_document d) → Keeps (Holds G) (Documents.create o d)
  unfolding Documents.create
  Holds-create d s = let written = sound_write (Change.add_document d) stable s in search leaves

  Holds-new_document :
      (id batch_id : Uuid) (path name : String) (content : Bytes) (checksum : String)
      → Keeps (Holds G) (Documents.create o (new_document id batch_id path name content checksum))
  Holds-new_document id batch_id path name content checksum = Holds-create _ (refl, refl)

  Holds-create_document :
      (path name : String) (content : Bytes) → Keeps (Holds G) (create_document o path name content)
  unfolding create_document Documents.find_active_duplicate
  Holds-create_document path name content =
      search
        (
          leaves, Holds-validate_tiff, Holds-reject_duplicate, Holds-create_batch,
          Holds-new_document,
        )
        depth 14

  Holds-upload_to_storage :
      (id : Uuid) (content : Bytes) → Keeps (Holds G) (upload_to_storage o id content)
  unfolding upload_to_storage upload_original
  Holds-upload_to_storage id content = search leaves depth 8

  Holds-create_job : (j : ClassificationJob) → Keeps (Holds G) (Jobs.create o j)
  unfolding Jobs.create
  Holds-create_job j = let written = sound_write (Change.add_job j) stable tt in search leaves

  Holds-store_and_enqueue :
      (d : Document) (content : Bytes) (meta : Uuid)
      → Keeps (Holds G) (store_and_enqueue o d content meta)
  unfolding store_and_enqueue
  Holds-store_and_enqueue d content meta =
      search
        (
          leaves,
          Holds-upload_to_storage,
          Holds-create_job,
          λ (bucket key : String). sound_write (Change.store_document d.id bucket key) stable tt,
        )
        depth 14

  pub Holds-ingest_file :
      (path name : String) (content : Bytes) (meta : Uuid) (request_id : Option String)
      → Keeps (Holds G) (ingest_file o path name content meta request_id)
  unfolding ingest_file
  Holds-ingest_file path name content meta request_id =
      search
        (
          leaves,
          Holds-create_document,
          Holds-store_and_enqueue,
          λ (id : Uuid). sound_write (Change.queue_document id) stable tt,
          λ (id : Uuid) (n : ℕ). sound_write (Change.count_document id n) stable tt,
          Holds-record o stable,
          Holds-or_warn,
          batch_list-IsHarmless,
        )
        depth 14

  pub Holds-mark_failed :
      (path name reason : String) (request_id : Option String)
      → Keeps (Holds G) (mark_failed o path name reason request_id)
  unfolding mark_failed
  Holds-mark_failed path name reason request_id = search (leaves, Holds-record o stable)
