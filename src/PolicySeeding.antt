-- ===== src/PolicySeeding.antt =====
-- `seed_baseline_policies` of backend/app/infra/authz/casbin_enforcer.py, as the script
-- backend/scripts/seed_casbin_policies.py runs it. The rows of the policy table are the enforcer's, whose
-- `add_policy` gives whether it added a row, and the rows.
pub mod Seeded
use document_classifier_week.Prelude.{ℕ, suc, String, Bool, List, [], ◌∷◌, if◌then◌else◌}
use document_classifier_week.Authorization.{baseline_policy_tuples}
use document_classifier_week.StartupValidation.{CasbinRule}

abbrev pub Policy : Type 0
Policy = String × String × String

abbrev pub AddPolicy : Type 0
AddPolicy = Policy → List CasbinRule → Bool × List CasbinRule

-- the loop over the policies, with the number of rows added
unfoldable pub seed : AddPolicy → List Policy → List CasbinRule → ℕ × List CasbinRule
seed add_policy [] rules = (0, rules)
seed add_policy (t ∷ policies) rules =
    let (is_added, rules') = add_policy t rules in
    let (added, rules'') = seed add_policy policies rules' in
    (if is_added then suc added else added, rules'')

unfoldable pub seed_baseline_policies : AddPolicy → List CasbinRule → ℕ × List CasbinRule
seed_baseline_policies add_policy rules = seed add_policy baseline_policy_tuples rules
