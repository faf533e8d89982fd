-- ===== src/Session/Errors.antt =====
-- backend/app/domain/errors.py, the adapters' exceptions, and those of the libraries.
use document_classifier_week.Prelude.{ℕ, String}

pub data Error : Type 0 where
  -- errors.py
  duplicate_document unsupported_file_type storage_error : Error
  classification_error : Error
  prediction_not_found review_not_eligible invalid_review_label : Error
  permission_denied : Error
  startup_validation_error : String → Error
  cache_invalidation_error : Error
  -- Python's, and `UserInvitationAlreadyExists`
  value_error attribute_error user_invitation_already_exists : Error
  -- SQLAlchemy's: a statement or a commit that fails, a session that waits for its rollback, and
  -- `scalar_one_or_none` on several rows
  database_error pending_rollback multiple_results_found : Error
  -- infra/minio.py
  minio_permission minio_bucket minio_file_not_found minio_connection : Error
  -- infra/sftp.py
  sftp_permission sftp_file sftp_connection : Error
  -- `fastapi.HTTPException` with its status code
  http_exception : ℕ → Error
  -- what else the clients of Casbin, MinIO, Redis and SFTP and the classifier raise
  casbin_error minio_client_error redis_error sftp_client_error pipeline_error : Error
