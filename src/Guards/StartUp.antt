-- ===== src/Guards/StartUp.antt =====
-- What a start-up without failures means.
use document_classifier_week.Prelude.{
  ◌≡◌, refl, ap, String, Bool, true, false, Option, none, some, List, [], ◌∷◌, string_eq, All,
  select, contains, arith, if◌then◌else◌,
}
use document_classifier_week.Authorization.{baseline_policy_tuples}
use document_classifier_week.StartupValidation.{
  CasbinRule, Probes, Check, wrapped, same_revision, check_migration, check_postgres, check_redis,
  check_minio_buckets, check_vault, is_policy, collect, find_missing, report_missing,
  assert_baseline_policies_present, and_then, assert_policy_table_not_empty,
  validate_authorization_startup, check_rules, check_casbin, placeholders, check_secret,
  check_jwt_secret, failures, run_api_readiness_checks,
}

failures-nil :
    (name : String) (c : Check) (checks : List (String × Check))
    → failures ((name, c) ∷ checks) ≡ []
    → (c ≡ none) × (failures checks ≡ [])
unfolding failures
failures-nil name none checks h = (refl, h)
failures-nil name (some message) checks h = grind arith

wrapped-none : (b : Bool) (message : String) → wrapped b message ≡ none → b ≡ true
wrapped-none true message h = refl
wrapped-none false message h = grind arith

same_revision-equal : (r s : Option String) → same_revision r s ≡ true → r ≡ s
same_revision-equal none none h = refl
same_revision-equal none (some s) h = grind arith
same_revision-equal (some r) none h = grind arith
same_revision-equal (some r) (some s) h = ap some ((string_eq.test_iff r s).0 h)

check_migration-none :
    (r : Option (Option String × Option String))
    → check_migration r ≡ none
    → (head : Option String) × (r ≡ some (head, head))
check_migration-none none h = grind arith
check_migration-none (some (current, head)) h = (
  head,
  ap (λ c. some (c, head))
      (same_revision-equal current head (taken (same_revision current head) _ h)),
)
  where
    taken :
        (b : Bool) (message : String)
        → Path (Option String) (if b then none else some message) none
        → b ≡ true
    taken true message h = refl
    taken false message h = grind arith

-- one row for the policy
found-one :
    {R : Type 0} (rows : List R) (t : String × String × String)
    (rest : Option (List (String × String × String)))
    → collect rows t rest ≡ some []
    → ((r : R) × (rows ≡ r ∷ [])) × (rest ≡ some [])
found-one rows t none h = grind arith
found-one [] t (some missing) h = grind arith
found-one (r ∷ []) t (some missing) h = ((r, refl), h)
found-one (r ∷ q ∷ rows) t (some missing) h = grind arith

-- Exactly one rule of the table is this policy.
abbrev pub IsPresent : List CasbinRule → String × String × String → Type 0
IsPresent rules t = (r : CasbinRule) × (select (is_policy t) rules ≡ r ∷ [])

find_missing-none :
    (rules : List CasbinRule) (policies : List (String × String × String))
    → find_missing rules policies ≡ some []
    → All (IsPresent rules) policies
unfolding find_missing
find_missing-none rules [] h = tt
find_missing-none rules (t ∷ policies) h =
    let (one, rest) = found-one (select (is_policy t) rules) t (find_missing rules policies) h in
    (one, find_missing-none rules policies rest)

report_missing-none :
    (missing : Option (List (String × String × String)))
    → report_missing missing ≡ none
    → missing ≡ some []
report_missing-none none h = grind arith
report_missing-none (some []) h = refl
report_missing-none (some (t ∷ missing)) h = grind arith

and_then-none : (c d : Check) → and_then c d ≡ none → (c ≡ none) × (d ≡ none)
and_then-none none d h = (refl, h)
and_then-none (some message) d h = grind arith

check_rules-none :
    (rules : Option (List CasbinRule)) (reloads : Bool)
    → check_rules rules reloads ≡ none
    → ((rows : List CasbinRule) × (rules ≡ some rows) × All (IsPresent rows) baseline_policy_tuples)
      × (reloads ≡ true)
unfolding validate_authorization_startup assert_baseline_policies_present
check_rules-none none reloads h = grind arith
check_rules-none (some rows) reloads h =
    let (filled, rest) = and_then-none (assert_policy_table_not_empty rows) _ h in
    let (present, reloaded) = and_then-none (assert_baseline_policies_present rows) _ rest in
    (
      (
        rows,
        refl,
        find_missing-none rows baseline_policy_tuples
            (report_missing-none (find_missing rows baseline_policy_tuples) present),
      ),
      wrapped-none reloads "Casbin policy check failed." reloaded,
    )

check_secret-none :
    (secret : Option String)
    → check_secret secret ≡ none
    → (s : String) × (secret ≡ some s) × (contains s ("" ∷ placeholders) ≡ false)
check_secret-none none h = grind arith
check_secret-none (some s) h = (s, refl, taken (contains s ("" ∷ placeholders)) _ h)
  where
    taken :
        (b : Bool) (message : String)
        → Path (Option String) (if b then some message else none) none
        → b ≡ false
    taken true message h = grind arith
    taken false message h = refl

check_postgres-none :
    (p : Probes)
    → check_postgres p ≡ none
    → (p.select_one ≡ true) × ((head : Option String) × (p.revisions ≡ some (head, head)))
unfolding check_postgres
check_postgres-none p h =
    let (reached, migrated) = both p.select_one h in
    (reached, check_migration-none p.revisions migrated)
  where
    both :
        (b : Bool)
        → (if b then check_migration p.revisions else some "Postgres connection failed.") ≡ none
        → (b ≡ true) × (check_migration p.revisions ≡ none)
    both true h = (refl, h)
    both false h = grind arith

-- If the readiness checks of the API report no failure, then: the database answers and is at the
-- revision of the scripts; Redis, the buckets and the required secrets are there; the table of
-- policies has each baseline rule exactly once, and the enforcer reloads; and the JWT secret is set
-- and no placeholder.
pub run_api_readiness_checks-ready :
    (p : Probes)
    → run_api_readiness_checks p ≡ []
    → (p.select_one ≡ true)
      × ((head : Option String) × (p.revisions ≡ some (head, head)))
      × (p.ping ≡ true)
      × (p.ensure_buckets ≡ true)
      × (p.validate_required_secrets ≡ true)
      × ((rules : List CasbinRule) × (p.rules ≡ some rules)
          × All (IsPresent rules) baseline_policy_tuples)
      × (p.reload_enforcer ≡ true)
      × ((s : String) × (p.load_jwt_secret ≡ some s) × (contains s ("" ∷ placeholders) ≡ false))
unfolding run_api_readiness_checks check_redis check_minio_buckets check_vault check_casbin
    check_jwt_secret
run_api_readiness_checks-ready p h =
    let (postgres, h1) = failures-nil "postgres" (check_postgres p) _ h in
    let (redis, h2) = failures-nil "redis" (check_redis p) _ h1 in
    let (buckets, h3) = failures-nil "minio_buckets" (check_minio_buckets p) _ h2 in
    let (vault, h4) = failures-nil "vault" (check_vault p) _ h3 in
    let (casbin, h5) = failures-nil "casbin" (check_casbin p) _ h4 in
    let (jwt, h6) = failures-nil "jwt_secret" (check_jwt_secret p) _ h5 in
    let (reached, migrated) = check_postgres-none p postgres in
    let (policies, reloaded) = check_rules-none p.rules p.reload_enforcer casbin in
    (
      reached,
      migrated,
      wrapped-none p.ping _ redis,
      wrapped-none p.ensure_buckets _ buckets,
      wrapped-none p.validate_required_secrets _ vault,
      policies,
      reloaded,
      check_secret-none p.load_jwt_secret jwt,
    )
