-- ===== src/Guards/Permissions.antt =====
-- The permissions of a user with one role, under the baseline policy.
use document_classifier_week.Prelude.{
  ◌≡◌, refl, sym, ap, ◌∙◌, All, ◌||◌, String, Bool, true, false, ◌&&◌, List, [], ◌∷◌, any, ◌==◌,
  string_eq, str,
}
use document_classifier_week.Models.{Uuid}
use document_classifier_week.Session.{Outside, PolicyCall}
use document_classifier_week.Authorization.{
  Role, Action, Resource, role_text, action_text, resource_text, baseline_policy_tuples, enforce,
}

-- what the roles are for
abbrev pub permits : Role → Resource → Action → Bool
permits Role.admin Resource.users Action.manage = true
permits Role.admin Resource.roles Action.manage = true
permits Role.admin Resource.audit_logs Action.read = true
permits Role.auditor Resource.audit_logs Action.read = true
permits r Resource.batches Action.read = true
permits r Resource.predictions Action.read = true
permits Role.admin Resource.predictions Action.relabel = true
permits Role.reviewer Resource.predictions Action.relabel = true
permits r s a = false

abbrev matches : (String → Bool) → String → String → String × String × String → Bool
matches g obj act (s, b, a) = g s && (obj == b && act == a)

matrix :
    (r : Role) (s : Resource) (a : Action)
    → any (matches (λ t. role_text r == t) (resource_text s) (action_text a)) baseline_policy_tuples
      ≡ permits r s a
unfolding baseline_policy_tuples
matrix Role.admin Resource.users Action.read = refl
matrix Role.admin Resource.roles Action.read = refl
matrix Role.admin Resource.audit_logs Action.read = refl
matrix Role.admin Resource.batches Action.read = refl
matrix Role.admin Resource.predictions Action.read = refl
matrix Role.reviewer Resource.users Action.read = refl
matrix Role.reviewer Resource.roles Action.read = refl
matrix Role.reviewer Resource.audit_logs Action.read = refl
matrix Role.reviewer Resource.batches Action.read = refl
matrix Role.reviewer Resource.predictions Action.read = refl
matrix Role.auditor Resource.users Action.read = refl
matrix Role.auditor Resource.roles Action.read = refl
matrix Role.auditor Resource.audit_logs Action.read = refl
matrix Role.auditor Resource.batches Action.read = refl
matrix Role.auditor Resource.predictions Action.read = refl
matrix r s a = refl

any-ext :
    {A : Type 0} (p q : A → Bool) (xs : List A) → All (λ x. p x ≡ q x) xs → any p xs ≡ any q xs
any-ext p q [] h = refl
any-ext p q (x ∷ xs) (h, hs) = rw (h, any-ext p q xs hs)

-- the subject of a rule is a role
abbrev IsOfRole : String × String × String → Type 0
IsOfRole (s, b, a) = (r : Role) × (role_text r ≡ s)

baseline-IsOfRole : All IsOfRole baseline_policy_tuples
unfolding baseline_policy_tuples
baseline-IsOfRole = (
  (Role.admin, refl),
  (
    (Role.admin, refl),
    (
      (Role.admin, refl),
      (
        (Role.admin, refl),
        (
          (Role.admin, refl),
          (
            (Role.admin, refl),
            (
              (Role.auditor, refl),
              (
                (Role.auditor, refl),
                (
                  (Role.auditor, refl),
                  ((Role.reviewer, refl), ((Role.reviewer, refl), ((Role.reviewer, refl), tt))),
                ),
              ),
            ),
          ),
        ),
      ),
    ),
  ),
)

module _ (g : String → Bool) (sub : String) (r : Role)
    (not_role : (t : Role) → (sub == role_text t) ≡ false)
    (links : (t : String) → g t ≡ (sub == t || role_text r == t)) where
  same_links :
      (obj act : String) (rules : List (String × String × String))
      → All IsOfRole rules
      → All (λ x. matches g obj act x ≡ matches (λ t. role_text r == t) obj act x) rules
  same_links obj act [] h = tt
  same_links obj act ((s, b, a) ∷ rules) ((t, e), rest) =
      (ap (λ v. v && (obj == b && act == a)) (links s ∙ linked), same_links obj act rules rest)
    where
      linked : (sub == s || role_text r == s) ≡ (role_text r == s)
      linked = rw (sym e, not_role t) refl

-- If the enforcer holds the baseline rules, and links a user, whose identifier is not the name of a
-- role, to one role and, as Casbin does, to the user's own identifier, then `enforce` permits the
-- user what that role is for, and nothing else: an admin reads batches, predictions and the
-- audit log, manages users and roles and relabels, a reviewer reads batches and predictions and
-- relabels, an auditor reads batches, predictions and the audit log.
pub enforce-permits :
    (o : Outside) (h : List PolicyCall) (user_id : Uuid) (r : Role) (s : Resource) (a : Action)
    → o.p h ≡ baseline_policy_tuples
    → ((t : Role) → (str user_id == role_text t) ≡ false)
    → ((t : String) → o.g h (str user_id) t ≡ (str user_id == t || role_text r == t))
    → enforce o h (str user_id) (resource_text s) (action_text a) ≡ permits r s a
unfolding enforce
enforce-permits o h user_id r s a rules not_role links = rw (rules) (
    any-ext (matches (o.g h (str user_id)) (resource_text s) (action_text a))
      (matches (λ t. role_text r == t) (resource_text s) (action_text a)) baseline_policy_tuples
      (same_links (o.g h (str user_id)) (str user_id) r not_role links (resource_text s)
        (action_text a) baseline_policy_tuples baseline-IsOfRole)
    ∙ matrix r s a)
