-- ===== src/Authorization/Terms.antt =====
-- backend/app/domain/roles.py, and `BASELINE_POLICIES` of casbin_enforcer.py, sorted as
-- `baseline_policy_tuples` sorts it.
use document_classifier_week.Prelude.{String, List, [], ◌∷◌}

pub data Role : Type 0 where
  admin reviewer auditor : Role

pub data Action : Type 0 where
  read manage review relabel : Action

pub data Resource : Type 0 where
  users roles audit_logs batches predictions : Resource

-- `str(member)` of the string enumerations
abbrev pub role_text : Role → String
role_text admin = "admin"
role_text reviewer = "reviewer"
role_text auditor = "auditor"

abbrev pub action_text : Action → String
action_text read = "read"
action_text manage = "manage"
action_text review = "review"
action_text relabel = "relabel"

abbrev pub resource_text : Resource → String
resource_text users = "users"
resource_text roles = "roles"
resource_text audit_logs = "audit_logs"
resource_text batches = "batches"
resource_text predictions = "predictions"

abbrev policy : Role → Resource → Action → String × String × String
policy r s a = (role_text r, resource_text s, action_text a)

unfoldable pub baseline_policy_tuples : List (String × String × String)
baseline_policy_tuples =
    policy admin audit_logs read
    ∷ policy admin batches read
    ∷ policy admin predictions read
    ∷ policy admin predictions relabel
    ∷ policy admin roles manage
    ∷ policy admin users manage
    ∷ policy auditor audit_logs read
    ∷ policy auditor batches read
    ∷ policy auditor predictions read
    ∷ policy reviewer batches read
    ∷ policy reviewer predictions read
    ∷ policy reviewer predictions relabel
    ∷ []
