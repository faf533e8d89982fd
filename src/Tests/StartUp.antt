-- ===== src/Tests/StartUp.antt =====
-- The start-up checks when all is well.
use document_classifier_week.Prelude.{
  none, ◌≡◌, refl, String, true, false, Option, some, List, ◌∷◌, All, map, contains, string_eq,
}
use document_classifier_week.Authorization.{baseline_policy_tuples}
use document_classifier_week.StartupValidation.{
  CasbinRule, Probes, placeholders, find_missing, check_postgres, check_redis, check_minio_buckets,
  check_vault, check_casbin, check_jwt_secret, assert_baseline_policies_present,
  validate_authorization_startup, failures, run_api_readiness_checks,
}
use document_classifier_week.Guards.StartUp.{IsPresent, run_api_readiness_checks-ready}

abbrev rule : String × String × String → CasbinRule
rule (role, resource, action) = record {
  id = 0;
  ptype = some "p";
  v0 = some role;
  v1 = some resource;
  v2 = some action;
  v3 = none;
  v4 = none;
  v5 = none;
}

abbrev well : Probes
well = record {
  select_one = true;
  revisions = some (some "001", some "001");
  ping = true;
  ensure_buckets = true;
  validate_required_secrets = true;
  rules = some (map rule baseline_policy_tuples);
  reload_enforcer = true;
  load_jwt_secret = some "0123";
  check_connection = true;
  check_originals_writable = true;
  check_queue_health = true;
  validate_classifier_assets = true;
}

run_api_readiness_checks-ready_example :
    (true ≡ true)
    × ((head : Option String) × (well.revisions ≡ some (head, head)))
    × (true ≡ true)
    × (true ≡ true)
    × (true ≡ true)
    × ((rules : List CasbinRule) × (well.rules ≡ some rules)
        × All (IsPresent rules) baseline_policy_tuples)
    × (true ≡ true)
    × ((s : String) × (well.load_jwt_secret ≡ some s) × (contains s ("" ∷ placeholders) ≡ false))
unfolding run_api_readiness_checks failures check_postgres check_redis check_minio_buckets
    check_vault check_casbin check_jwt_secret validate_authorization_startup
    assert_baseline_policies_present find_missing baseline_policy_tuples
run_api_readiness_checks-ready_example = run_api_readiness_checks-ready well refl
