-- ===== src/Tests/Adapters.antt =====
-- The theorems on the adapters of Vault and SFTP, at a small vault and a directory of one file.
use document_classifier_week.Prelude.{
  ℕ, ◌≡◌, refl, String, true, false, Option, some, none, [], ◌∷◌, ◌==◌, string_eq, if◌then◌else◌,
}
use mathlib.Core.List.Memᴰ
use document_classifier_week.Models.{JobStatus}
use document_classifier_week.Session.{Outside, SftpEntry, Stat, step}
use document_classifier_week.Session as Session
use document_classifier_week.Vault.{
  Vault, version, ok, Settings, open_adapter, read_secret, report_required_secrets,
  validate_required_secrets, apply_vault_secrets,
}
use document_classifier_week.Vault.Gate.{with_secrets, apply_vault_secrets-after_check}
use document_classifier_week.Sftp.{SftpFileInfo, is_listed, file_infos, rstrip_slash}
use document_classifier_week.Sftp.Connection.{
  Server, Attempt, with_adapter, is_untyped, is_other, with_adapter-is_open,
}
use document_classifier_week.Sftp.Metadata.{get_file_metadata}
use document_classifier_week.Sftp.Paths.{get_file_metadata-listed}
use document_classifier_week.Minio.{
  originals_bucket, overlays_bucket, ensure_buckets_exist, ensure_bucket, bucket_exists,
  make_bucket,
}
use document_classifier_week.Guards.Buckets.{IsThere, ensure_buckets_exist-IsThere}
use document_classifier_week.Tests.Samples.{outside, world}

-- every secret has every key, with its name as the value
abbrev vault : Vault
vault = record {
  token = "root";
  connects = true;
  is_authenticated = some true;
  read_secret_version = λ path. version (
      ("secret", "j")
      ∷ ("user", "u")
      ∷ ("password", "p")
      ∷ ("db", "d")
      ∷ ("access_key", "a")
      ∷ ("secret_key", "s")
      ∷ ("host", "h")
      ∷ ("port", "2222")
      ∷ ("url", "r")
      ∷ []);
}

abbrev defaults : Settings
defaults = record {
  database_url = "postgres";
  redis_url = "redis";
  vault_addr = "vault";
  vault_token = "root";
  minio_endpoint = "minio";
  minio_root_user = "minioadmin";
  minio_root_password = "minioadmin";
  minio_bucket_originals = "originals";
  minio_bucket_overlays = "overlays";
  sftp_host = "sftp";
  sftp_port = 22;
  sftp_user = "vendor";
  sftp_password = "vendorpass";
  sftp_drop_dir = "drop";
  jwt_secret = "change-me-in-production";
}

abbrev parse_int : String → Option ℕ
parse_int s = if s == "2222" then some 2222 else none

apply_vault_secrets-after_check_example :
    (jwt : String) × (redis : String) × (access : String) × (secret : String) × (host : String)
    × (user : String) × (password : String) × (read_secret vault "jwt" "secret" ≡ ok jwt)
    × (read_secret vault "redis" "url" ≡ ok redis)
    × (read_secret vault "minio" "access_key" ≡ ok access)
    × (read_secret vault "minio" "secret_key" ≡ ok secret)
    × (read_secret vault "sftp" "host" ≡ ok host)
    × (read_secret vault "sftp" "user" ≡ ok user)
    × (read_secret vault "sftp" "password" ≡ ok password)
    × (apply_vault_secrets parse_int vault defaults
        ≡ (ok tt, with_secrets defaults jwt redis access secret host 2222 user password))
unfolding validate_required_secrets open_adapter report_required_secrets read_secret
apply_vault_secrets-after_check_example =
    apply_vault_secrets-after_check vault parse_int defaults "2222" 2222 refl refl refl

-- the log-in fails with an exception that is not paramiko's
abbrev broken : Server
broken = record { reachable = true; connect = Attempt.other_error; from_transport = Attempt.done }

with_adapter-is_open_example :
    ((with_adapter broken false).1.is_open ≡ is_untyped broken)
    × (is_other (with_adapter broken false).0 ≡ is_untyped broken)
with_adapter-is_open_example = with_adapter-is_open broken false

abbrev served : Outside
served = record (outside "admin" 100) { stat = λ t path. Stat.attributes (some 9) (some 1) }

abbrev scan : SftpEntry
scan = record { filename = "a.tif"; st_mode = none; st_size = some 9; st_mtime = some 1 }

abbrev info : SftpFileInfo
info = record { filename = "a.tif"; remote_path = "/in/a.tif"; size_bytes = 9; modified_at = 1 }

get_file_metadata-listed_example :
    get_file_metadata served "/in/a.tif" (world JobStatus.queued)
    ≡ (Session.ok info, step (world JobStatus.queued))
unfolding file_infos is_listed rstrip_slash
get_file_metadata-listed_example =
    get_file_metadata-listed served "/in/" (scan ∷ []) info (world JobStatus.queued)
      (Memᴰ.head refl) refl refl refl

abbrev admin : Outside
admin = outside "admin" 100

ensure_buckets_exist-IsThere_example :
    IsThere admin originals_bucket (ensure_buckets_exist admin (world JobStatus.queued)).1
    × IsThere admin overlays_bucket (ensure_buckets_exist admin (world JobStatus.queued)).1
unfolding ensure_buckets_exist ensure_bucket bucket_exists make_bucket
ensure_buckets_exist-IsThere_example =
    ensure_buckets_exist-IsThere admin (world JobStatus.queued) tt
      (ensure_buckets_exist admin (world JobStatus.queued)).1 refl
