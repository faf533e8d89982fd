-- ===== src/Api/Health.antt =====
-- backend/app/api/health.py
use document_classifier_week.Prelude.{ℕ, String, List, [], ◌∷◌}
use document_classifier_week.StartupValidation.{Probes, run_api_readiness_checks}

-- the status code, and the field `checks` of the content
pub record Readiness : Type 0 where
  pub status_code : ℕ
  pub checks : List String

abbrev readiness : List String → Readiness
readiness [] = record { status_code = 200; checks = [] }
readiness (f ∷ failures) = record { status_code = 503; checks = f ∷ failures }

unfoldable pub health_ready : Probes → Readiness
health_ready p = readiness (run_api_readiness_checks p)
