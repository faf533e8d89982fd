-- ===== src/StartupValidation.antt =====
-- backend/app/services/startup_validation.py, backend/app/services/startup_authorization.py and
-- backend/app/repositories/casbin_policies.py. What the libraries answer when they are probed is the
-- record `Probes`; a check gives nothing, or raises `StartupValidationError` with its message.
use document_classifier_week.Prelude.{
  ℕ, String, ◌<>◌, Bool, true, false, ◌&&◌, ◌||◌, Option, none, some, List, [], ◌∷◌, ◌==◌,
  string_eq, select, contains, if◌then◌else◌,
}
use document_classifier_week.Authorization.{baseline_policy_tuples}

-- A row of the table of policies. A column that is NULL is a text that no policy has.
pub record CasbinRule : Type 0 where
  pub id : ℕ
  pub ptype : Option String
  pub v0 : Option String
  pub v1 : Option String
  pub v2 : Option String
  pub v3 : Option String
  pub v4 : Option String
  pub v5 : Option String

pub record Probes : Type 0 where
  -- `SELECT 1`, and the revisions of the database and of the scripts, if they can be read
  pub select_one : Bool
  pub revisions : Option (Option String × Option String)
  pub ping : Bool
  pub ensure_buckets : Bool
  pub validate_required_secrets : Bool
  -- the rows of `casbin_rule`, if they can be read, and the reload of the enforcer
  pub rules : Option (List CasbinRule)
  pub reload_enforcer : Bool
  -- the secret of the settings, empty if it is not set
  pub load_jwt_secret : Option String
  pub check_connection : Bool
  pub check_originals_writable : Bool
  pub check_queue_health : Bool
  pub validate_classifier_assets : Bool

-- the message of a `StartupValidationError`, if the check raises it
abbrev pub Check : Type 0
Check = Option String

-- a library call whose exceptions become one message
abbrev pub wrapped : Bool → String → Check
wrapped true message = none
wrapped false message = some message

-- `str` of an optional revision
abbrev revision_text : Option String → String
revision_text none = "None"
revision_text (some r) = r

abbrev pub same_revision : Option String → Option String → Bool
same_revision none none = true
same_revision (some r) (some s) = r == s
same_revision _ _ = false

abbrev pub check_migration : Option (Option String × Option String) → Check
check_migration none = some "Alembic migration check failed."
check_migration (some (current, head)) =
    if same_revision current head
    then none
    else some (
        "Database migration not at head (current="
        <> (revision_text current <> (", head=" <> (revision_text head <> ")."))))

unfoldable pub check_postgres : Probes → Check
check_postgres p =
    if p.select_one then check_migration p.revisions else some "Postgres connection failed."

unfoldable pub check_redis : Probes → Check
check_redis p = wrapped p.ping "Redis connection failed."

unfoldable pub check_minio_buckets : Probes → Check
check_minio_buckets p = wrapped p.ensure_buckets "MinIO bucket bootstrap failed."

unfoldable pub check_vault : Probes → Check
check_vault p = wrapped p.validate_required_secrets "Vault secrets validation failed."

-- the condition of `has_policy("p", …)`
-- `column == value` in a query: NULL equals nothing
abbrev has_value : String → Option String → Bool
has_value value none = false
has_value value (some s) = s == value

abbrev pub is_policy : String × String × String → CasbinRule → Bool
is_policy (role, resource, action) r =
    has_value "p" r.ptype
    && (has_value role r.v0 && (has_value resource r.v1 && has_value action r.v2))

-- the next policy after the rows that were found for it: `scalar_one_or_none` raises on several
abbrev pub collect :
    {R : Type 0}
    → List R
    → String × String × String
    → Option (List (String × String × String))
    → Option (List (String × String × String))
collect rows t none = none
collect [] t (some missing) = some (t ∷ missing)
collect (r ∷ []) t (some missing) = some missing
collect (r ∷ q ∷ rows) t (some missing) = none

-- the policies that are missing, if each query gives one row at most
unfoldable pub find_missing :
    List CasbinRule → List (String × String × String) → Option (List (String × String × String))
find_missing rules [] = some []
find_missing rules (t ∷ policies) =
    collect (select (is_policy t) rules) t (find_missing rules policies)

-- `", ".join(…)` of the missing policies
abbrev listed_policies : List (String × String × String) → String
listed_policies [] = ""
listed_policies ((role, resource, action) ∷ []) = role <> (":" <> (resource <> (":" <> action)))
listed_policies ((role, resource, action) ∷ t ∷ rest) =
    role <> (":" <> (resource <> (":" <> (action <> (", " <> listed_policies (t ∷ rest))))))

abbrev pub report_missing : Option (List (String × String × String)) → Check
report_missing none = some "Casbin policy check failed."
report_missing (some []) = none
report_missing (some (t ∷ missing)) =
    some
      ("Casbin policy table is missing baseline RBAC policies: " <> listed_policies (t ∷ missing))

unfoldable pub assert_baseline_policies_present : List CasbinRule → Check
assert_baseline_policies_present rules = report_missing (find_missing rules baseline_policy_tuples)

-- the check `second` after `first` has passed
abbrev pub and_then : Check → Check → Check
and_then none second = second
and_then (some message) second = some message

abbrev pub assert_policy_table_not_empty : List CasbinRule → Check
assert_policy_table_not_empty [] =
    some "Casbin policy table is empty. Seed baseline RBAC policies before starting the API."
assert_policy_table_not_empty (r ∷ rules) = none

unfoldable pub validate_authorization_startup : List CasbinRule → Bool → Check
validate_authorization_startup rules reloads = and_then (assert_policy_table_not_empty rules) (
    and_then (assert_baseline_policies_present rules)
      (wrapped reloads "Casbin policy check failed."))

abbrev pub check_rules : Option (List CasbinRule) → Bool → Check
check_rules none reloads = some "Casbin policy check failed."
check_rules (some rules) reloads = validate_authorization_startup rules reloads

unfoldable pub check_casbin : Probes → Check
check_casbin p = check_rules p.rules p.reload_enforcer

abbrev pub placeholders : List String
placeholders =
    "changeme" ∷ "change-me" ∷ "change-me-in-production" ∷ "secret" ∷ "your-secret-here" ∷ []

abbrev pub check_secret : Option String → Check
check_secret none = some "JWT Vault secret is missing."
check_secret (some secret) =
    if secret == "" || contains secret placeholders
    then some "JWT Vault secret is a placeholder."
    else none

unfoldable pub check_jwt_secret : Probes → Check
check_jwt_secret p = check_secret p.load_jwt_secret

unfoldable pub check_sftp : Probes → Check
check_sftp p = wrapped p.check_connection "SFTP connection or directory check failed."

unfoldable pub check_minio_originals_writable : Probes → Check
check_minio_originals_writable p =
    wrapped p.check_originals_writable "MinIO originals bucket is not writable."

unfoldable pub check_rq_available : Probes → Check
check_rq_available p = wrapped p.check_queue_health "Redis Queue is not available."

unfoldable pub check_classifier_assets : Probes → Check
check_classifier_assets p =
    wrapped p.validate_classifier_assets "Classifier asset validation failed."

-- the loop over the checks
unfoldable pub failures : List (String × Check) → List String
failures [] = []
failures ((name, none) ∷ checks) = failures checks
failures ((name, some message) ∷ checks) = (name <> (": " <> message)) ∷ failures checks

unfoldable pub run_api_readiness_checks : Probes → List String
run_api_readiness_checks p = failures (
    ("postgres", check_postgres p)
    ∷ ("redis", check_redis p)
    ∷ ("minio_buckets", check_minio_buckets p)
    ∷ ("vault", check_vault p)
    ∷ ("casbin", check_casbin p)
    ∷ ("jwt_secret", check_jwt_secret p)
    ∷ [])

unfoldable pub run_ingestion_worker_checks : Probes → List String
run_ingestion_worker_checks p = failures (
    ("sftp", check_sftp p)
    ∷ ("minio_buckets", check_minio_buckets p)
    ∷ ("minio_originals_writable", check_minio_originals_writable p)
    ∷ ("rq_queue", check_rq_available p)
    ∷ [])

unfoldable pub run_inference_worker_checks : Probes → List String
run_inference_worker_checks p = failures (
    ("classifier_assets", check_classifier_assets p)
    ∷ ("minio_buckets", check_minio_buckets p)
    ∷ ("minio_originals_writable", check_minio_originals_writable p)
    ∷ ("rq_queue", check_rq_available p)
    ∷ ("redis", check_redis p)
    ∷ [])
