-- ===== src/PolicySeeding/Seeded.antt =====
-- The policy table after the seeding.
use document_classifier_week.Prelude.{
  ℕ, ◌≤◌, ◌≡◌, Bool, not, ◌&&◌, true, false, none, some, List, [], ◌∷◌, length, select, All,
}
use document_classifier_week.StartupValidation.{CasbinRule, is_policy}
use document_classifier_week.PolicySeeding.{Policy, AddPolicy}

-- the row of a policy, with the identifier that the table gives it
abbrev pub row : ℕ → Policy → CasbinRule
row id (role, resource, action) = record {
  id = id;
  ptype = some "p";
  v0 = some role;
  v1 = some resource;
  v2 = some action;
  v3 = none;
  v4 = none;
  v5 = none;
}

-- the rows of a policy
abbrev pub rows_of : Policy → List CasbinRule → List CasbinRule
rows_of t rules = select (is_policy t) rules

-- Casbin's documented behaviour: a policy that is there is not added again, any other gets a row, with any
-- identifier.
pub record IsStore (add_policy : AddPolicy) : Type 0 where
  pub present :
      (t : Policy) (rules : List CasbinRule) (r : CasbinRule) (rest : List CasbinRule)
      → rows_of t rules ≡ r ∷ rest
      → add_policy t rules ≡ (false, rules)
  pub absent :
      (t : Policy) (rules : List CasbinRule)
      → rows_of t rules ≡ []
      → (id : ℕ) × (add_policy t rules ≡ (true, row id t ∷ rules))

-- the policy has one row
abbrev pub HasOne : List CasbinRule → Policy → Type 0
HasOne rules t = (r : CasbinRule) × (rows_of t rules ≡ r ∷ [])

-- the policy has one row at most
abbrev pub HasFew : List CasbinRule → Policy → Type 0
HasFew rules t = length (rows_of t rules) ≤ 1

-- neither is the row of the other
abbrev Differ : Policy → Policy → Type 0
Differ t u = (is_policy t (row 0 u) ≡ false) × (is_policy u (row 0 t) ≡ false)

abbrev AllDiffer : List Policy → Type 0
AllDiffer [] = Unit
AllDiffer (t ∷ policies) = All (Differ t) policies × AllDiffer policies

-- the tests that decide these conditions
abbrev all : {A : Type 0} → (A → Bool) → List A → Bool
all p [] = true
all p (x ∷ xs) = p x && all p xs

abbrev is_different : Policy → Policy → Bool
is_different t u = not (is_policy t (row 0 u)) && not (is_policy u (row 0 t))

abbrev all_different : List Policy → Bool
all_different [] = true
all_different (t ∷ policies) = all (is_different t) policies && all_different policies
