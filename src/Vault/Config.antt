-- ===== src/Vault/Config.antt =====
-- `apply_vault_secrets` of backend/app/config.py. The settings that it assigned before an exception stay
-- assigned.
use document_classifier_week.Prelude.{ℕ, String, Option, none, some}
use document_classifier_week.Vault.Adapter.{
  Vault, Problem, vault_connection_error, vault_secret_not_found, vault_key_not_found,
  runtime_error, value_error, Answer, ok, err, open_adapter, read_secret,
}

pub record Settings : Type 0 where
  pub database_url : String
  pub redis_url : String
  pub vault_addr : String
  pub vault_token : String
  pub minio_endpoint : String
  pub minio_root_user : String
  pub minio_root_password : String
  pub minio_bucket_originals : String
  pub minio_bucket_overlays : String
  pub sftp_host : String
  pub sftp_port : ℕ
  pub sftp_user : String
  pub sftp_password : String
  pub sftp_drop_dir : String
  pub jwt_secret : String

-- `except VaultError`: the adapter's exceptions become a `RuntimeError`
abbrev pub unavailable : Problem → Problem
unavailable vault_connection_error = runtime_error
unavailable vault_secret_not_found = runtime_error
unavailable vault_key_not_found = runtime_error
unavailable e = e

-- the state of the assignments: the settings, and the exception if there was one
abbrev pub Run : Type 0
Run = Answer Unit × Settings

-- `settings.field = vault.read_secret(…)`, unless an exception came before
abbrev assign : Answer String → (String → Settings → Settings) → Run → Run
assign (ok value) set (ok a, s) = (ok tt, set value s)
assign (err e) set (ok a, s) = (err (unavailable e), s)
assign answer set (err e, s) = (err e, s)

-- `int(text)`, which may be a `ValueError`
abbrev assign_port : Option ℕ → Run → Run
assign_port (some n) (ok a, s) = (ok tt, record s { sftp_port = n })
assign_port none (ok a, s) = (err value_error, s)
assign_port n (err e, s) = (err e, s)

abbrev assign_port_text : (String → Option ℕ) → Answer String → Run → Run
assign_port_text parse_int (ok text) run = assign_port (parse_int text) run
assign_port_text parse_int (err e) (ok a, s) = (err (unavailable e), s)
assign_port_text parse_int (err e) (err e', s) = (err e', s)

abbrev opened : Answer Unit → Settings → Run
opened (ok a) s = (ok tt, s)
opened (err e) s = (err (unavailable e), s)

-- The adapter connects with the address and the token of the settings.
unfoldable pub apply_vault_secrets : (String → Option ℕ) → Vault → Settings → Run
apply_vault_secrets parse_int v s =
    let r0 = opened (open_adapter v) s in
    let r1 = assign (read_secret v "jwt" "secret") (λ x t. record t { jwt_secret = x }) r0 in
    let r2 = assign (read_secret v "redis" "url") (λ x t. record t { redis_url = x }) r1 in
    let r3 =
      assign (read_secret v "minio" "access_key") (λ x t. record t { minio_root_user = x }) r2 in
    let r4 =
      assign (read_secret v "minio" "secret_key") (λ x t. record t { minio_root_password = x })
        r3 in
    let r5 = assign (read_secret v "sftp" "host") (λ x t. record t { sftp_host = x }) r4 in
    let r6 = assign_port_text parse_int (read_secret v "sftp" "port") r5 in
    let r7 = assign (read_secret v "sftp" "user") (λ x t. record t { sftp_user = x }) r6 in
    assign (read_secret v "sftp" "password") (λ x t. record t { sftp_password = x }) r7
