-- ===== src/Guards/Refusals.antt =====
-- A caller without the permission `roles:manage` changes nothing through the role service.
use document_classifier_week.Prelude.{
  ◌≡◌, String, false, inl, inr, ◌⊎◌, Bool-cases, str, if◌then◌else◌,
}
use document_classifier_week.Models.{Uuid}
use document_classifier_week.Session.{Outside, permission_denied, casbin_error, World, M, err, step}
use document_classifier_week.Session.Laws.{bind_ok, bind_err}
use document_classifier_week.Authorization.{enforce, can, require_permission}

-- The action refuses: it raises `PermissionDenied`, or Casbin's error if that fails, and only the
-- clock has moved.
abbrev pub Refuses : {A : Type 0} → M A → World → Type 0
Refuses m w = (m w ≡ (err permission_denied, step w)) ⊎ (m w ≡ (err casbin_error, step w))

module _ (o : Outside) where
  pub require_permission-Refuses :
      (user_id : Uuid) (obj act : String) (w : World)
      → enforce o w.policies (str user_id) obj act ≡ false
      → Refuses (require_permission o user_id obj act) w
  unfolding require_permission can
  require_permission-Refuses user_id obj act w h = elim (Bool-cases (o.casbin_fails w.tick)) [
    | inl e ↦ inr (bind_err (can o user_id obj act) _ {exc = casbin_error} {w' = step w} (rw e))
    | inr e ↦
        inl (bind_ok (can o user_id obj act) _ {a = false} {w' = step w} (rw (e, if◌then◌else◌, h)))
  ]
