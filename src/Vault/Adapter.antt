-- ===== src/Vault/Adapter.antt =====
-- backend/app/infra/vault.py. What the client of Vault answers is the record `Vault`.
use document_classifier_week.Prelude.{
  String, ◌<>◌, Bool, true, false, Option, none, some, List, [], ◌∷◌, ◌++◌, ◌==◌, string_eq,
  if◌then◌else◌,
}

-- the adapter's exceptions, any other of the client, and those of `apply_vault_secrets`
pub data Problem : Type 0 where
  vault_connection_error vault_secret_not_found vault_key_not_found : Problem
  client_error runtime_error value_error : Problem

pub data Answer (A : Type 0) : Type 0 where
  ok : A → Answer A
  err : Problem → Answer A

infixl 5 ◌>>=◌ ◌>>◌
abbrev pub ◌>>=◌ : {A B : Type 0} → Answer A → (A → Answer B) → Answer B
ok a >>= f = f a
err e >>= f = err e

abbrev pub ◌>>◌ : {A B : Type 0} → Answer A → Answer B → Answer B
m >> k = m >>= λ a. k

-- `read_secret_version(path)`: the entries of the secret, `InvalidPath`, another `VaultError` of hvac,
-- or any other exception. A value is its `str`.
pub data SecretVersion : Type 0 where
  version : List (String × String) → SecretVersion
  invalid_path vault_error other_error : SecretVersion

pub record Vault : Type 0 where
  pub token : String
  -- `hvac.Client(…)` does not raise
  pub connects : Bool
  -- `is_authenticated()`, if it does not raise
  pub is_authenticated : Option Bool
  pub read_secret_version : String → SecretVersion

abbrev pub required_secrets : List (String × List String)
required_secrets =
    ("jwt", "secret" ∷ [])
    ∷ ("postgres", "user" ∷ "password" ∷ "db" ∷ [])
    ∷ ("minio", "access_key" ∷ "secret_key" ∷ [])
    ∷ ("sftp", "user" ∷ "password" ∷ "host" ∷ "port" ∷ [])
    ∷ ("redis", "url" ∷ [])
    ∷ []

abbrev check_authenticated : Option Bool → Answer Unit
check_authenticated none = err vault_connection_error
check_authenticated (some false) = err vault_connection_error
check_authenticated (some true) = ok tt

-- `VaultAdapter.__init__`
unfoldable pub open_adapter : Vault → Answer Unit
open_adapter v =
    if v.token == ""
    then err vault_connection_error
    else (if v.connects then check_authenticated v.is_authenticated else err vault_connection_error)

-- `str(data[key])`, where the keys differ
abbrev pub value_of : String → List (String × String) → Answer String
value_of key [] = err vault_key_not_found
value_of key ((k, value) ∷ entries) = if k == key then ok value else value_of key entries

abbrev secret_of : String → SecretVersion → Answer String
secret_of key (version entries) = value_of key entries
secret_of key invalid_path = err vault_secret_not_found
secret_of key vault_error = err vault_connection_error
secret_of key other_error = err client_error

unfoldable pub read_secret : Vault → String → String → Answer String
read_secret v path key = secret_of key (v.read_secret_version path)

-- one key of the report: the adapter's own exceptions mean that it is missing
abbrev pub found : Answer String → Answer Bool
found (ok value) = ok true
found (err vault_secret_not_found) = ok false
found (err vault_key_not_found) = ok false
found (err vault_connection_error) = ok false
found (err e) = err e

abbrev pub report_keys : Vault → String → List String → Answer (List (String × Bool))
report_keys v path [] = ok []
report_keys v path (key ∷ keys) =
    found (read_secret v path key) >>= λ b. report_keys v path keys >>= λ rest. ok ((key, b) ∷ rest)

abbrev pub report_paths :
    Vault → List (String × List String) → Answer (List (String × List (String × Bool)))
report_paths v [] = ok []
report_paths v ((path, keys) ∷ paths) = report_keys v path keys >>= λ report.
    report_paths v paths >>= λ rest. ok ((path, report) ∷ rest)

-- the method `validate_required_secrets`
unfoldable pub report_required_secrets : Vault → Answer (List (String × List (String × Bool)))
report_required_secrets v = report_paths v required_secrets

-- the comprehension `missing`
abbrev pub missing_keys : String → List (String × Bool) → List String
missing_keys path [] = []
missing_keys path ((key, true) ∷ keys) = missing_keys path keys
missing_keys path ((key, false) ∷ keys) = (path <> (":" <> key)) ∷ missing_keys path keys

abbrev pub missing : List (String × List (String × Bool)) → List String
missing [] = []
missing ((path, keys) ∷ results) = missing_keys path keys ++ missing results

abbrev pub refuse_missing : List String → Answer Unit
refuse_missing [] = ok tt
refuse_missing (m ∷ ms) = err vault_connection_error

-- the function of the module
unfoldable pub validate_required_secrets : Vault → Answer Unit
validate_required_secrets v = do
  open_adapter v
  results ← report_required_secrets v
  refuse_missing (missing results)
