-- ===== src/Invariants/Services/Workers.antt =====
-- The workers' functions and `invite_user` keep the tables' properties.
use document_classifier_week.Prelude.{refl, String, Option, none, some}
use document_classifier_week.Models.{Db, Uuid, Bytes, User, Document, ClassificationJob, Change}
use document_classifier_week.Session.{Outside, Error, unsupported_file_type, uuid4, write}
use document_classifier_week.Session.Keeps.{Keeps, Keeps-bind}
use document_classifier_week.Session.Tables.{Holds, Holds-uuid4, Holds-in_session}
use document_classifier_week.Repositories.Documents
use document_classifier_week.Repositories.Jobs
use document_classifier_week.Repositories.Roles
use document_classifier_week.Repositories.Users
use document_classifier_week.Sftp.{SftpFileInfo}
use document_classifier_week.IngestionWorker.{
  attempt as attempt_call, handle, ingest_content, process_file,
}
use document_classifier_week.InferenceWorker.{
  run_pipeline, with_key, blob_of, attempt, active_job, run_job, classify_document,
}
use document_classifier_week.UserManagement.{
  reject_known, random_password, to_admin_profile, create_user, invite_user,
}
use document_classifier_week.Invariants.Sound.{IsStable, sound_write}
use document_classifier_week.Invariants.Leaves.{
  leaves, Holds-read, Holds-get_model, Holds-analyse, Holds-random_password,
}
use document_classifier_week.Invariants.Services.Jobs.{
  Holds-record, Holds-mark_running, Holds-persist_result, Holds-mark_retryable_failure,
}
use document_classifier_week.Invariants.Services.Files.{Holds-ingest_file, Holds-mark_failed}

module _ (o : Outside) {G : Db → Type 0} (stable : IsStable G) where
  Holds-handle : (f : SftpFileInfo) (exc : Error) → Keeps (Holds G) (handle o f exc)
  unfolding handle
  Holds-handle f unsupported_file_type = search (leaves, Holds-mark_failed o stable)
  Holds-handle f _ = search leaves

  Holds-ingest_content :
      (f : SftpFileInfo) (meta : Uuid) (content : Option Bytes)
      → Keeps (Holds G) (ingest_content o f meta content)
  unfolding ingest_content
  Holds-ingest_content f meta none = search leaves
  Holds-ingest_content f meta (some content) =
      search (leaves, Holds-handle, Holds-ingest_file o stable) depth 8

  pub Holds-process_file :
      (f : SftpFileInfo) (meta : Uuid) → Keeps (Holds G) (process_file o f meta)
  unfolding process_file attempt_call
  Holds-process_file f meta = search (leaves, Holds-read, Holds-ingest_content) depth 8

  Holds-run_pipeline : (key : String) → Keeps (Holds G) (run_pipeline o key)
  unfolding run_pipeline
  Holds-run_pipeline key = search (leaves, Holds-get_model, Holds-analyse) depth 8

  Holds-with_key : (d : Document) (k : Option String) → Keeps (Holds G) (with_key o d k)
  unfolding with_key
  Holds-with_key d none = search leaves
  Holds-with_key d (some key) = search leaves

  Holds-blob_of : (d : Option Document) → Keeps (Holds G) (blob_of o d)
  unfolding blob_of
  Holds-blob_of none = search leaves
  Holds-blob_of (some d) = Holds-with_key d d.blob_key

  Holds-attempt : (job_id doc_uuid meta : Uuid) → Keeps (Holds G) (attempt o job_id doc_uuid meta)
  unfolding attempt Documents.get_by_id
  Holds-attempt job_id doc_uuid meta =
      search (leaves, Holds-blob_of, Holds-run_pipeline, Holds-persist_result o stable) depth 14

  Holds-active_job : (j : Option ClassificationJob) → Keeps (Holds G) (active_job o j)
  unfolding active_job
  Holds-active_job none = search leaves
  Holds-active_job (some j) = search leaves

  pub Holds-classify_document :
      (doc_uuid meta : Uuid) → Keeps (Holds G) (classify_document o doc_uuid meta)
  unfolding classify_document run_job Jobs.get_active_by_document
  Holds-classify_document doc_uuid meta = Holds-in_session o (run_job o doc_uuid meta) (
      search
        (
          leaves,
          Holds-active_job,
          Holds-attempt,
          Holds-mark_running o stable,
          Holds-mark_retryable_failure o stable,
        )
        depth 14)

  Holds-reject_known : (u : Option User) → Keeps (Holds G) (reject_known o u)
  unfolding reject_known
  Holds-reject_known none = search leaves
  Holds-reject_known (some u) = search leaves

  Holds-create_user : (email : String) → Keeps (Holds G) (create_user o email)
  unfolding create_user Users.create
  Holds-create_user email = Keeps-bind (uuid4 o) _ (Holds-uuid4 o) (λ id.
      Keeps-bind (random_password o) _ (Holds-random_password o) (λ hash.
        Keeps-bind (write (Change.add_user _)) _
          (sound_write (Change.add_user _) stable (refl, refl)) (λ _. search leaves)))

  pub Holds-invite_user :
      (email : String) (admin : Uuid) (request_id : Option String)
      → Keeps (Holds G) (invite_user o email admin request_id)
  unfolding invite_user Users.get_by_email to_admin_profile Roles.get_active_roles
  Holds-invite_user email admin request_id =
      search (leaves, Holds-reject_known, Holds-create_user, Holds-record o stable) depth 14
