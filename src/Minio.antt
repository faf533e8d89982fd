-- ===== src/Minio.antt =====
-- backend/app/infra/minio.py: buckets, uploads and downloads. The client is outside; the buckets that
-- it has made and the objects that it has accepted are listed in the world.
use document_classifier_week.Prelude.{
  Bool, true, false, not, [], String, ◌<>◌, ◌||◌, ◌==◌, string_eq, ◌∷◌, str, if◌then◌else◌,
}
use document_classifier_week.Models.{Uuid, Bytes}
use document_classifier_week.Session.{
  Outside, S3Answer, BucketAnswer, when, ◌>>=◌, S3Object, Error, minio_permission, minio_bucket,
  minio_file_not_found, minio_connection, minio_client_error, M, Result, ok, err, pure, step, ◌>>◌,
}

abbrev pub originals_bucket : String
originals_bucket = "originals"

abbrev pub overlays_bucket : String
overlays_bucket = "overlays"

-- `_raise_typed_error`
unfoldable pub typed_error : String → Error
typed_error code =
    if code == "AccessDenied"
    then minio_permission
    else if code == "NoSuchBucket" || code == "BucketAlreadyOwnedByYou"
    then minio_bucket
    else if code == "NoSuchKey"
    then minio_file_not_found
    else minio_connection

-- the effect of an answer of `put_object`
abbrev put_answer : String → String → Bytes → S3Answer → M String
put_answer bucket key content S3Answer.done w =
    (ok key, record w { blobs = (bucket, key, content) ∷ w.blobs })
put_answer bucket key content (S3Answer.s3_error code) w = (err (typed_error code), w)
put_answer bucket key content S3Answer.client_error w = (err minio_client_error, w)

abbrev get_answer : S3Object → Result Bytes
get_answer (S3Object.content bytes) = ok bytes
get_answer (S3Object.s3_error code) = err (typed_error code)
get_answer S3Object.client_error = err minio_client_error

-- the effect of an answer of `make_bucket`
abbrev make_answer : String → S3Answer → M Unit
make_answer bucket S3Answer.done w = (ok tt, record w { buckets = bucket ∷ w.buckets })
make_answer bucket (S3Answer.s3_error code) w = (err (typed_error code), w)
make_answer bucket S3Answer.client_error w = (err minio_client_error, w)

abbrev exists_answer : BucketAnswer → Result Bool
exists_answer (BucketAnswer.exists b) = ok b
exists_answer (BucketAnswer.s3_error code) = err (typed_error code)
exists_answer BucketAnswer.client_error = err minio_client_error

-- `stat_object` of `file_exists`: a missing key is an answer
abbrev stat_answer : S3Answer → Result Bool
stat_answer S3Answer.done = ok true
stat_answer (S3Answer.s3_error code) =
    if code == "NoSuchKey" then ok false else err (typed_error code)
stat_answer S3Answer.client_error = err minio_client_error

abbrev probe_data : Bytes
probe_data =
    b's' ∷ b't' ∷ b'a' ∷ b'r' ∷ b't' ∷ b'u' ∷ b'p' ∷ b'-' ∷ b'p' ∷ b'r' ∷ b'o' ∷ b'b' ∷ b'e' ∷ []

module _ (o : Outside) where
  unfoldable pub upload_file : String → String → Bytes → M String
  upload_file bucket key content w =
      put_answer bucket key content (o.put_object w.tick bucket key content) (step w)

  unfoldable pub download_file : String → String → M Bytes
  download_file bucket key w = (get_answer (o.get_object w.tick bucket key), step w)

  unfoldable pub upload_original : Uuid → Bytes → M (String × String)
  upload_original document_id content = do
    let key = str document_id <> ".tiff"
    upload_file originals_bucket key content
    pure (originals_bucket, key)

  unfoldable pub file_exists : String → String → M Bool
  file_exists bucket key w = (stat_answer (o.stat_object w.tick bucket key), step w)

  unfoldable pub bucket_exists : String → M Bool
  bucket_exists bucket w = (exists_answer (o.bucket_exists w.tick bucket), step w)

  unfoldable pub make_bucket : String → M Unit
  make_bucket bucket w = make_answer bucket (o.make_bucket w.tick bucket) (step w)

  unfoldable pub ensure_bucket : String → M Unit
  ensure_bucket bucket = do exists ← bucket_exists bucket; when (not exists) (make_bucket bucket)

  unfoldable pub ensure_buckets_exist : M Unit
  ensure_buckets_exist = do ensure_bucket originals_bucket; ensure_bucket overlays_bucket

  -- The probe is the bytes of "startup-probe".
  unfoldable pub check_originals_writable : M Unit
  check_originals_writable = do
    upload_file originals_bucket "_startup_probe_.tiff" probe_data
    pure tt
