-- ===== src/Guards/Steps.antt =====
-- The steps that the services share: the enforcer, the audit trail, the cache.
use document_classifier_week.Prelude.{
  ◌≡◌, refl, sym, ◌∙◌, ap, String, Bool, true, false, not, Option, nat_eq, string_eq, arith, str,
}
use document_classifier_week.Models.{Uuid, Change, apply, Details}
use document_classifier_week.Session.{
  Outside, permission_denied, World, uuid4, M, step, raise_if, write, statement,
}
use document_classifier_week.Session.Ensures.{Ensures, Ensures-pure, Ensures-raise, Ensures-bind}
use document_classifier_week.Repositories.AuditEvents
use document_classifier_week.Audit.{record_event}
use document_classifier_week.Authorization.{enforce, can, require_permission}
use document_classifier_week.Cache.{or_warn}
use document_classifier_week.Cache.Effects.{IsHarmless, or_warn-IsSame}

module _ (o : Outside) where
  pub Ensures-can :
      (user_id : Uuid) (obj act : String) (w : World)
      → Ensures w
          (can o user_id obj act)
          (λ b v. (b ≡ enforce o w.policies (str user_id) obj act) × (v ≡ step w))
  unfolding can
  Ensures-can user_id obj act w = record { at = λ a v h. ground arith }

  pub Ensures-allowed :
      (b : Bool) (w : World)
      → Ensures w (raise_if (not b) permission_denied) (λ a v. (b ≡ true) × (v ≡ w))
  Ensures-allowed true w = Ensures-pure tt w (refl, refl)
  Ensures-allowed false w = Ensures-raise permission_denied w

  pub Ensures-require_permission :
      (user_id : Uuid) (obj act : String) (w : World)
      → Ensures w
          (require_permission o user_id obj act)
          (λ a v. (enforce o w.policies (str user_id) obj act ≡ true) × (v ≡ step w))
  unfolding require_permission
  Ensures-require_permission user_id obj act w =
      Ensures-bind (Ensures-can user_id obj act w) (λ b u (asked, stepped). record {
        at = λ a v h.
            let (yes', same) = (Ensures-allowed b u).at a v h in (sym asked ∙ yes', same ∙ stepped);
      })

  pub Ensures-record :
      (action outcome : String) (actor : Option Uuid) (type id : Option String)
      (details : Option Details) (request_id : Option String) (w : World)
      → Ensures w (record_event o action outcome actor type id details request_id) (λ a v.
        v
        ≡ step (record w {
          db =
              apply
                (Change.add_audit (record {
                  actor_user_id = actor;
                  action = action;
                  target_type = type;
                  target_id = id;
                  outcome = outcome;
                  details = details;
                  request_id = request_id;
                }))
                w.db;
        }))
  unfolding record_event AuditEvents.create write statement
  Ensures-record action outcome actor type id details request_id w = record {
    at = λ a v h. ground arith;
  }

  pub Ensures-uuid4 : (w : World) → Ensures w (uuid4 o) (λ a v. v.db ≡ w.db)
  unfolding uuid4
  Ensures-uuid4 w = record { at = λ a v h. ground arith }

  pub Ensures-or_warn :
      (m : M Unit) → IsHarmless m → (w : World) → Ensures w (or_warn m) (λ a v. v.saved ≡ w.saved)
  Ensures-or_warn m hm w = record {
    at = λ a v h. sym (ap (λ x. x.1.saved) h) ∙ (or_warn-IsSame m w hm).saved;
  }
