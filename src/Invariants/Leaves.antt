-- ===== src/Invariants/Leaves.antt =====
-- The actions that write no row of the tables: Casbin, MinIO, RQ, SFTP, the classifier, the cache.
use document_classifier_week.Prelude.{◌≡◌, String, arith}
use document_classifier_week.Models.{Uuid, Bytes, Db}
use document_classifier_week.Session.{Outside, PolicyCall, World, M}
use document_classifier_week.Session.Keeps.{Keeps, keeps_rules}
use document_classifier_week.Session.Tables.{
  Holds, Holds-statement, Holds-rows, Holds-rows_at, Holds-commit, Holds-uuid4, Holds-now,
}
use document_classifier_week.Authorization.{tell, can}
use document_classifier_week.Cache.{or_warn}
use document_classifier_week.Cache.Effects.{IsHarmless, or_warn-IsSame}
use document_classifier_week.Minio.{upload_file, download_file}
use document_classifier_week.Ingestion.{enqueue_classification_job}
use document_classifier_week.Sftp.{when_connected, read_file_content}
use document_classifier_week.InferenceWorker.{get_model, analyse}
use document_classifier_week.UserManagement.{random_password}

pub Holds-same :
    {G : Db → Type 0} (w w' : World) → w'.db ≡ w.db → w'.saved ≡ w.saved → Holds G w → Holds G w'
Holds-same w w' d s h = record { seen = rw d h.seen; committed = rw s h.committed }

module _ (o : Outside) {G : Db → Type 0} where
  pub Holds-tell : (c : PolicyCall) → Keeps (Holds G) (tell o c)
  unfolding tell
  Holds-tell c = record { at = λ w h. ground arith }

  pub Holds-can : (user_id : Uuid) (obj act : String) → Keeps (Holds G) (can o user_id obj act)
  unfolding can
  Holds-can user_id obj act = record { at = λ w h. ground arith }

  pub Holds-upload :
      (bucket key : String) (content : Bytes) → Keeps (Holds G) (upload_file o bucket key content)
  unfolding upload_file
  Holds-upload bucket key content = record { at = λ w h. ground arith }

  pub Holds-download : (bucket key : String) → Keeps (Holds G) (download_file o bucket key)
  unfolding download_file
  Holds-download bucket key = record { at = λ w h. ground arith }

  pub Holds-enqueue :
      (document_id meta : Uuid) → Keeps (Holds G) (enqueue_classification_job o document_id meta)
  unfolding enqueue_classification_job
  Holds-enqueue document_id meta = record { at = λ w h. ground arith }

module _ {G : Db → Type 0} where
  pub Holds-or_warn : (m : M Unit) → IsHarmless m → Keeps (Holds G) (or_warn m)
  Holds-or_warn m hm = record {
    at = λ w h. let s = or_warn-IsSame m w hm in Holds-same w (or_warn m w).1 s.db s.saved h;
  }

pub ruleset leaves = (
  keeps_rules, Holds-statement, Holds-rows, Holds-rows_at, Holds-commit, Holds-uuid4, Holds-now,
  Holds-tell, Holds-can, Holds-upload, Holds-download, Holds-enqueue,
)

module _ (o : Outside) {G : Db → Type 0} where
  pub Holds-read : (path : String) → Keeps (Holds G) (read_file_content o path)
  unfolding read_file_content when_connected
  Holds-read path = record { at = λ w h. ground arith }

  pub Holds-get_model : Keeps (Holds G) (get_model o)
  unfolding get_model
  Holds-get_model = record { at = λ w h. ground arith }

  pub Holds-analyse : (content : Bytes) → Keeps (Holds G) (analyse o content)
  unfolding analyse
  Holds-analyse content = record { at = λ w h. ground arith }

  pub Holds-random_password : Keeps (Holds G) (random_password o)
  unfolding random_password
  Holds-random_password = record { at = λ w h. ground arith }
