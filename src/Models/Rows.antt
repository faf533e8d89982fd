-- ===== src/Models/Rows.antt =====
-- The tables of backend/app/db/models.py.
use document_classifier_week.Prelude.{ℕ, String, Bool, Option, List}
use document_classifier_week.Models.Statuses.{BatchStatus, IngestionStatus, JobStatus, Float}

abbrev pub Uuid : Type 0
Uuid = ℕ

abbrev pub Time : Type 0
Time = ℕ

abbrev pub Bytes : Type 0
Bytes = List ℕ

pub record User : Type 0 where
  pub id : Uuid
  pub email : String
  pub hashed_password : String
  pub is_active : Bool
  pub is_superuser : Bool
  pub is_verified : Bool

pub record RoleAssignment : Type 0 where
  pub id : Uuid
  pub user_id : Uuid
  pub role : String
  pub assigned_by_user_id : Option Uuid
  pub assigned_at : Time
  pub revoked_at : Option Time

pub record Batch : Type 0 where
  pub id : Uuid
  pub source : String
  pub status : BatchStatus
  pub document_count : ℕ
  pub reviewable_count : ℕ

pub record Document : Type 0 where
  pub id : Uuid
  pub batch_id : Uuid
  pub source_path : String
  pub source_filename : String
  pub source_size_bytes : ℕ
  pub source_checksum : String
  pub blob_bucket : Option String
  pub blob_key : Option String
  pub mime_type : String
  pub ingestion_status : IngestionStatus

pub record ClassificationJob : Type 0 where
  pub id : Uuid
  pub document_id : Uuid
  pub rq_job_id : Option String
  pub status : JobStatus
  pub attempt_count : ℕ
  pub last_error : Option String
  pub enqueued_at : Option Time
  pub started_at : Option Time
  pub finished_at : Option Time

pub record Prediction : Type 0 where
  pub id : Uuid
  pub document_id : Uuid
  pub model_metadata_id : Uuid
  pub predicted_class : String
  pub top1_confidence : Float
  pub class_scores : List (String × Float)
  pub review_eligible : Bool
  pub review_label : Option String
  pub reviewed_by_user_id : Option Uuid
  pub reviewed_at : Option Time

pub record OverlayAsset : Type 0 where
  pub id : Uuid
  pub prediction_id : Uuid
  pub blob_bucket : String
  pub blob_key : String
  pub content_type : String

-- `details_json`: the dictionaries that the services write
pub data Details : Type 0 where
  role : String → Details
  new_roles : List String → Details
  relabel : String → String → Float → Details
  ingested : String → String → Details
  ingestion_failed : String → String → Details
  classified : Uuid → String → Float → Bool → Details
  classification_failed : String → Bool → Details
  invited : String → String → Details

pub record AuditEvent : Type 0 where
  pub actor_user_id : Option Uuid
  pub action : String
  pub target_type : Option String
  pub target_id : Option String
  pub outcome : String
  pub details : Option Details
  pub request_id : Option String

-- What a session sees of the database.
pub record Db : Type 0 where
  pub users : List User
  pub role_assignments : List RoleAssignment
  pub batches : List Batch
  pub documents : List Document
  pub classification_jobs : List ClassificationJob
  pub predictions : List Prediction
  pub overlay_assets : List OverlayAsset
  pub audit_events : List AuditEvent
