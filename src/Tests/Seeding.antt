-- ===== src/Tests/Seeding.antt =====
-- The seeding of an empty policy table.
use document_classifier_week.Prelude.{Bool, true, false, List, [], ◌∷◌, length, select}
use document_classifier_week.StartupValidation.{CasbinRule, is_policy}
use document_classifier_week.PolicySeeding.{Policy, AddPolicy}
use document_classifier_week.PolicySeeding.Seeded.{row}

-- a table that is searched before a row is added
abbrev added : List CasbinRule → Policy → List CasbinRule → Bool × List CasbinRule
added [] t rules = (true, row (length rules) t ∷ rules)
added (r ∷ found) t rules = (false, rules)

abbrev add_policy : AddPolicy
add_policy t rules = added (select (is_policy t) rules) t rules
