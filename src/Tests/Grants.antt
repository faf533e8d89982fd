-- ===== src/Tests/Grants.antt =====
-- The role service against its specification, at two calls.
use document_classifier_week.Prelude.{◌≡◌, refl, none, [], ◌∷◌}
use document_classifier_week.Models.{JobStatus}
use document_classifier_week.Session.{Outside}
use document_classifier_week.Guards.Roles.Effects.{RoleOp}
use document_classifier_week.Transactions.Grants.{
  Call, effects, committed, run_calls, returned, run_calls-effects,
}
use document_classifier_week.Tests.Samples.{outside, world}
use document_classifier_week.Prelude.{List}

abbrev admin : Outside
admin = outside "admin" 100

-- a role more, and a revocation of one that the user does not have
abbrev calls : List Call
calls =
    (RoleOp.assign 2 "reviewer", 1, none)
    ∷ (RoleOp.revoke 2 "admin", 1, none)
    ∷ (RoleOp.revoke 2 "auditor", 1, none)
    ∷ []

run_calls-effects_example :
    committed admin 2 "reviewer" (run_calls admin calls (world JobStatus.queued))
    ≡ effects
        (returned admin calls (world JobStatus.queued))
        2
        "reviewer"
        (committed admin 2 "reviewer" (world JobStatus.queued))
run_calls-effects_example =
    run_calls-effects admin calls 2 "reviewer" (world JobStatus.queued) (λ t p xs. refl)
