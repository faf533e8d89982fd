-- ===== src/Tests/Histories.antt =====
-- The invariants at a history of a review, a change of roles and an ingestion.
use document_classifier_week.Prelude.{
  ◌≡◌, refl, true, false, none, List, [], ◌∷◌, map, All, Extends, contains, string_eq,
}
use document_classifier_week.Models.{JobStatus, is_failed, review_confidence_threshold}
use document_classifier_week.Session.{World}
use document_classifier_week.RoleManagement.{valid_roles}
use document_classifier_week.Invariants.{Request, serve}
use document_classifier_week.Invariants.Histories.Records.{
  model_output, origin, grant_of, serve-predictions, serve-documents, serve-role_assignments,
}
use document_classifier_week.Invariants.Histories.Labels.{
  IsGated, IsLabelled, serve-review_eligible, serve-review_label, serve-role_names,
  serve-ingestion_status,
}
use document_classifier_week.Tests.Samples.{outside, world, file}

abbrev history : List Request
history =
    Request.relabel 7 "letter" 1 none none
    ∷ Request.replace_roles 2 ("reviewer" ∷ []) 1 none
    ∷ Request.process_files (file 9 ∷ []) 1
    ∷ []

abbrev before : World
before = world JobStatus.queued

abbrev after : World
after = serve (outside "admin" 100) history before

serve-predictions_example :
    Extends (map model_output before.saved.predictions) (map model_output after.saved.predictions)
serve-predictions_example = serve-predictions (outside "admin" 100) history before

serve-documents_example :
    Extends (map origin before.saved.documents) (map origin after.saved.documents)
serve-documents_example = serve-documents (outside "admin" 100) history before

serve-role_assignments_example :
    Extends (map grant_of before.saved.role_assignments) (map grant_of after.saved.role_assignments)
serve-role_assignments_example = serve-role_assignments (outside "admin" 100) history before

serve-review_eligible_example : All IsGated after.saved.predictions
unfolding review_confidence_threshold
serve-review_eligible_example =
    serve-review_eligible (outside "admin" 100) history before (refl, tt)

serve-review_label_example : All (λ p. IsLabelled p.review_label) after.saved.predictions
serve-review_label_example = serve-review_label (outside "admin" 100) history before (tt, tt)

serve-role_names_example :
    All (λ r. contains r.role valid_roles ≡ true) after.saved.role_assignments
serve-role_names_example = serve-role_names (outside "admin" 100) history before (refl, tt)

serve-ingestion_status_example :
    All (λ d. is_failed d.ingestion_status ≡ false) after.saved.documents
serve-ingestion_status_example =
    serve-ingestion_status (outside "admin" 100) history before (refl, tt)
