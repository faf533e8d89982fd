-- ===== src/Vault/Gate.antt =====
-- The start-up check of the secrets, and the settings after it.
use document_classifier_week.Prelude.{
  ℕ, ◌≡◌, refl, ◌∙◌, ap, arith, String, Bool, true, false, Option, some, List, [], ◌∷◌, ◌++◌, All,
}
use document_classifier_week.Vault.Adapter.{
  Vault, Answer, ok, err, ◌>>=◌, required_secrets, open_adapter, read_secret, found, report_keys,
  report_paths, report_required_secrets, missing_keys, missing, refuse_missing,
  validate_required_secrets, vault_secret_not_found, vault_key_not_found, vault_connection_error,
  client_error, runtime_error, value_error,
}
use document_classifier_week.Vault.Config.{Settings, apply_vault_secrets}

-- the secret can be read
abbrev pub IsReadable : Vault → String → String → Type 0
IsReadable v path key = (value : String) × (read_secret v path key ≡ ok value)

module _ {A B : Type 0} where
  bind_inv :
      (m : Answer A) (f : A → Answer B) (b : B)
      → (m >>= f) ≡ ok b
      → (a : A) × (m ≡ ok a) × (f a ≡ ok b)
  bind_inv (ok a) f b h = (a, refl, h)
  bind_inv (err e) f b h = grind arith

found-true : (m : Answer String) → found m ≡ ok true → (value : String) × (m ≡ ok value)
found-true (ok value) h = (value, refl)
found-true (err vault_secret_not_found) h = grind arith
found-true (err vault_key_not_found) h = grind arith
found-true (err vault_connection_error) h = grind arith
found-true (err client_error) h = grind arith
found-true (err runtime_error) h = grind arith
found-true (err value_error) h = grind arith

append_nil_inv : (xs ys : List String) → xs ++ ys ≡ [] → (xs ≡ []) × (ys ≡ [])
append_nil_inv [] ys h = (refl, h)
append_nil_inv (x ∷ xs) ys h = grind arith

ok-equal : {A : Type 0} {a b : A} → Path (Answer A) (ok a) (ok b) → a ≡ b
ok-equal h = grind arith

-- the settings with these secrets, and nothing else changed
abbrev pub with_secrets :
    Settings → String → String → String → String → String → ℕ → String → String → Settings
with_secrets s jwt redis access secret host port user password = record s {
  jwt_secret = jwt;
  redis_url = redis;
  minio_root_user = access;
  minio_root_password = secret;
  sftp_host = host;
  sftp_port = port;
  sftp_user = user;
  sftp_password = password;
}

module _ (v : Vault) where
  IsReadable-key :
      (path key : String) (b : Bool) (rest : List (String × Bool))
      → found (read_secret v path key) ≡ ok b
      → missing_keys path ((key, b) ∷ rest) ≡ []
      → IsReadable v path key × (missing_keys path rest ≡ [])
  IsReadable-key path key true rest h none_missing =
      (found-true (read_secret v path key) h, none_missing)
  IsReadable-key path key false rest h none_missing = grind arith

  report_keys-IsReadable :
      (path : String) (keys : List String) (report : List (String × Bool))
      → report_keys v path keys ≡ ok report
      → missing_keys path report ≡ []
      → All (IsReadable v path) keys
  report_keys-IsReadable path [] report h none_missing = tt
  report_keys-IsReadable path (key ∷ keys) report h none_missing =
      let (b, e, h') = bind_inv (found (read_secret v path key)) _ report h in
      let (rest, e', h'') = bind_inv (report_keys v path keys) _ report h' in
      let (readable, others) =
        IsReadable-key path key b rest e (ap (missing_keys path) (ok-equal h'') ∙ none_missing) in
      (readable, report_keys-IsReadable path keys rest e' others)

  report_paths-IsReadable :
      (paths : List (String × List String)) (results : List (String × List (String × Bool)))
      → report_paths v paths ≡ ok results
      → missing results ≡ []
      → All (λ (path, keys). All (IsReadable v path) keys) paths
  report_paths-IsReadable [] results h none_missing = tt
  report_paths-IsReadable ((path, keys) ∷ paths) results h none_missing =
      let (report, e, h') = bind_inv (report_keys v path keys) _ results h in
      let (rest, e', h'') = bind_inv (report_paths v paths) _ results h' in
      let (here, others) =
        append_nil_inv (missing_keys path report) (missing rest)
          (ap missing (ok-equal h'') ∙ none_missing) in
      (report_keys-IsReadable path keys report e here, report_paths-IsReadable paths rest e' others)

  refuse_missing-ok : (ms : List String) (a : Unit) → refuse_missing ms ≡ ok a → ms ≡ []
  refuse_missing-ok [] a h = refl
  refuse_missing-ok (m ∷ ms) a h = grind arith

  -- what a check that passes has found: the adapter opens, and every required secret can be read
  validate-IsReadable :
      validate_required_secrets v ≡ ok tt
      → (open_adapter v ≡ ok tt)
        × All (λ (path, keys). All (IsReadable v path) keys) required_secrets
  unfolding validate_required_secrets report_required_secrets
  validate-IsReadable h =
      let (_, opened, h') = bind_inv (open_adapter v) _ tt h in
      let (results, e, h'') = bind_inv (report_paths v required_secrets) _ tt h' in
      (
        opened,
        report_paths-IsReadable required_secrets results e
            (refuse_missing-ok (missing results) tt h''),
      )

  -- If the start-up check `validate_required_secrets` passes, and the text of the SFTP port that Vault
  -- holds is the number `n`, then `apply_vault_secrets` with the same Vault raises nothing, and sets the
  -- JWT secret, the URL of Redis, both credentials of MinIO, and the host, the port, the user and the
  -- password of SFTP to what Vault holds. All other settings stay.
  pub apply_vault_secrets-after_check :
      (parse_int : String → Option ℕ) (s : Settings) (port : String) (n : ℕ)
      → validate_required_secrets v ≡ ok tt
      → read_secret v "sftp" "port" ≡ ok port
      → parse_int port ≡ some n
      → (jwt : String) × (redis : String) × (access : String) × (secret : String) × (host : String)
        × (user : String) × (password : String) × (read_secret v "jwt" "secret" ≡ ok jwt)
        × (read_secret v "redis" "url" ≡ ok redis)
        × (read_secret v "minio" "access_key" ≡ ok access)
        × (read_secret v "minio" "secret_key" ≡ ok secret)
        × (read_secret v "sftp" "host" ≡ ok host)
        × (read_secret v "sftp" "user" ≡ ok user)
        × (read_secret v "sftp" "password" ≡ ok password)
        × (apply_vault_secrets parse_int v s
            ≡ (ok tt, with_secrets s jwt redis access secret host n user password))
  unfolding apply_vault_secrets
  apply_vault_secrets-after_check parse_int s port n checked e_port e_n =
      let (opened, (jwts, (_, (minios, (sftps, (redises, _)))))) = validate-IsReadable checked in
      let ((jwt, e1), _) = jwts in
      let ((redis, e2), _) = redises in
      let ((access, e3), ((secret, e4), _)) = minios in
      let ((user, e7), ((password, e8), ((host, e5), _))) = sftps in
      (
        jwt,
        redis,
        access,
        secret,
        host,
        user,
        password,
        e1,
        e2,
        e3,
        e4,
        e5,
        e7,
        e8,
        rw (opened, e1, e2, e3, e4, e5, e_port, e_n, e7, e8) refl,
      )
