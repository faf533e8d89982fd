-- ===== src/Session/Answers.antt =====
-- The answers of what is not in the repository. `tick` numbers the interactions of a run, so that
-- an answer may depend on when it is asked for.
use document_classifier_week.Prelude.{ℕ, String, Bool, List, Option}
use document_classifier_week.Models.{
  Uuid, Time, Bytes, Float, Batch, Prediction, AuditEvent, User, RoleAssignment,
}
use document_classifier_week.Session.Errors.{Error}

-- What the enforcer has been told, the newest call first.
pub data PolicyCall : Type 0 where
  add_role_for_user delete_role_for_user : String → String → PolicyCall
  delete_roles_for_user : String → PolicyCall
  add_policy : String → String → String → PolicyCall

-- The answer of the MinIO client: done, an `S3Error` with its code, or another exception.
pub data S3Answer : Type 0 where
  done : S3Answer
  s3_error : String → S3Answer
  client_error : S3Answer

pub data BucketAnswer : Type 0 where
  exists : Bool → BucketAnswer
  s3_error : String → BucketAnswer
  client_error : BucketAnswer

pub data S3Object : Type 0 where
  content : Bytes → S3Object
  s3_error : String → S3Object
  client_error : S3Object

-- An entry of a directory, as paramiko's `listdir_attr` gives it, and its answers.
pub record SftpEntry : Type 0 where
  pub filename : String
  pub st_mode : Option ℕ
  pub st_size : Option ℕ
  pub st_mtime : Option ℕ

pub data Listing : Type 0 where
  entries : List SftpEntry → Listing
  permission_error file_not_found os_error : Listing
  -- any other exception, as paramiko's `SSHException` or an `EOFError`
  other_error : Listing

pub data Reading : Type 0 where
  content : Bytes → Reading
  permission_error file_not_found os_error other_error : Reading
  -- `read` raises on the open file
  read_error : Reading

-- the answer of paramiko's `stat`, with the size and the time
pub data Stat : Type 0 where
  attributes : Option ℕ → Option ℕ → Stat
  permission_error file_not_found os_error other_error : Stat

-- `InferenceResult` of backend/app/classifier/inference.py
pub record InferenceResult : Type 0 where
  pub predicted_class : String
  pub predicted_label_index : ℕ
  pub top1_confidence : Float
  pub class_scores : List (String × Float)

pub record Outside : Type 0 where
  pub uuid4 : ℕ → Uuid
  pub now : ℕ → Time
  -- The order in which a query gives its rows: `ORDER BY created_at`, descending for three tables, whose
  -- timestamps the database sets; none for the roles. It may differ from one query to the next.
  pub newest_batches : ℕ → List Batch → List Batch
  pub newest_predictions : ℕ → List Prediction → List Prediction
  pub newest_audit_events : ℕ → List AuditEvent → List AuditEvent
  pub oldest_users : ℕ → List User → List User
  pub in_any_order : ℕ → List RoleAssignment → List RoleAssignment
  -- a statement or a commit fails
  pub database_fails : ℕ → Bool
  -- Casbin: a failing call, the relation `g` and the rules `p` of rbac_model.conf
  pub casbin_fails : ℕ → Bool
  pub g : List PolicyCall → String → String → Bool
  pub p : List PolicyCall → List (String × String × String)
  -- MinIO: `bucket_exists`, `make_bucket`, `stat_object`, `put_object`, `get_object`
  pub bucket_exists : ℕ → String → BucketAnswer
  pub make_bucket : ℕ → String → S3Answer
  pub stat_object : ℕ → String → String → S3Answer
  pub put_object : ℕ → String → String → Bytes → S3Answer
  pub get_object : ℕ → String → String → S3Object
  -- RQ: the identifier of the enqueued job
  pub enqueue : ℕ → Uuid → Uuid → Option String
  -- Redis: `DEL` fails
  pub redis_fails : ℕ → String → Bool
  -- SFTP: the adapter has a session, `self._sftp is not None`; `listdir_attr`, `stat`, and `open` with `read`
  pub sftp_connected : ℕ → Bool
  pub stat : ℕ → String → Stat
  pub listdir_attr : ℕ → String → Listing
  pub open_read : ℕ → String → Reading
  -- the classifier: its assets fail to load, and the result with the overlay PNG of a TIFF
  pub model_fails : ℕ → Bool
  pub classify : ℕ → Bytes → Option (InferenceResult × Bytes)
  -- `hashlib.sha256(data).hexdigest()`
  pub sha256 : Bytes → String
  -- `text.strip().lower()`, after Python's Unicode tables
  pub strip_lower : String → String
  -- `os.path.dirname`
  pub dirname : String → String
  -- `str(exc)`
  pub exc_text : Error → String
  -- bcrypt on a random password
  pub random_password_hash : ℕ → String
