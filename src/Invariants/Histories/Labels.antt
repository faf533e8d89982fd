-- ===== src/Invariants/Histories/Labels.antt =====
-- What holds of every row of the tables, whatever has been served.
use document_classifier_week.Prelude.{
  ◌≡◌, refl, String, false, true, Option, none, some, List, All, All-rewrite, contains, string_eq,
  ◌==◌, nat_eq,
}
use document_classifier_week.Models.{
  Db, IngestionStatus, is_failed, Prediction, Change, apply, as_relabelled, as_stored, as_queued,
  as_revoked, is_active_of, float_lt, review_confidence_threshold,
}
use document_classifier_week.Session.{Outside, World}
use document_classifier_week.RoleManagement.{valid_roles}
use document_classifier_week.PredictionReview.{rvl_cdip_classes}
use document_classifier_week.Invariants.Sound.{IsSound, IsStable}
use document_classifier_week.Invariants.Requests.{Request, serve, serve-saved}

-- `review_eligible` says whether the confidence is below the threshold.
abbrev pub IsGated : Prediction → Type 0
IsGated p = p.review_eligible ≡ float_lt p.top1_confidence review_confidence_threshold

IsGated-keep :
    (c : Change)
    → IsSound c
    → (db : Db) → All IsGated db.predictions
    → All IsGated (apply c db).predictions
unfolding apply
IsGated-keep (Change.add_prediction p) (e, n) db h = (e, h)
IsGated-keep (Change.relabel id label user_id t) s db h =
    All-rewrite (λ p. p.id == id) (as_relabelled label user_id t) (λ p g. g) db.predictions h
IsGated-keep _ s db h = h

IsGated-IsStable : IsStable (λ db. All IsGated db.predictions)
IsGated-IsStable = record { keep = IsGated-keep }

-- If every committed prediction is eligible for review exactly when its confidence is below the
-- threshold, the same holds after any requests.
pub serve-review_eligible :
    (o : Outside) (requests : List Request) (w : World)
    → All IsGated w.saved.predictions
    → All IsGated (serve o requests w).saved.predictions
serve-review_eligible o requests w h = serve-saved o IsGated-IsStable requests w h

-- The review label, if there is one, is a class of the taxonomy.
abbrev pub IsLabelled : Option String → Type 0
IsLabelled none = Unit
IsLabelled (some label) = contains label rvl_cdip_classes ≡ true

IsLabelled-none : (l : Option String) → l ≡ none → IsLabelled l
IsLabelled-none l e = rw (e) tt

IsLabelled-keep :
    (c : Change)
    → IsSound c
    → (db : Db) → All (λ p. IsLabelled p.review_label) db.predictions
    → All (λ p. IsLabelled p.review_label) (apply c db).predictions
unfolding apply
IsLabelled-keep (Change.add_prediction p) (e, n) db h = (IsLabelled-none p.review_label n, h)
IsLabelled-keep (Change.relabel id label user_id t) s db h =
    All-rewrite (λ p. p.id == id) (as_relabelled label user_id t) (λ p g. s) db.predictions h
IsLabelled-keep _ s db h = h

IsLabelled-IsStable : IsStable (λ db. All (λ p. IsLabelled p.review_label) db.predictions)
IsLabelled-IsStable = record { keep = IsLabelled-keep }

-- If every committed review label is one of the 16 RVL-CDIP classes, the same holds after any
-- requests.
pub serve-review_label :
    (o : Outside) (requests : List Request) (w : World)
    → All (λ p. IsLabelled p.review_label) w.saved.predictions
    → All (λ p. IsLabelled p.review_label) (serve o requests w).saved.predictions
serve-review_label o requests w h = serve-saved o IsLabelled-IsStable requests w h

roles-keep :
    (c : Change)
    → IsSound c
    → (db : Db) → All (λ r. contains r.role valid_roles ≡ true) db.role_assignments
    → All (λ r. contains r.role valid_roles ≡ true) (apply c db).role_assignments
unfolding apply
roles-keep (Change.add_role r) (e, n) db h = (e, h)
roles-keep (Change.revoke_role id t) s db h =
    All-rewrite (λ r. r.id == id) (as_revoked t) (λ r g. g) db.role_assignments h
roles-keep (Change.revoke_roles_of user_id t) s db h =
    All-rewrite (is_active_of user_id) (as_revoked t) (λ r g. g) db.role_assignments h
roles-keep _ s db h = h

roles-IsStable : IsStable (λ db. All (λ r. contains r.role valid_roles ≡ true) db.role_assignments)
roles-IsStable = record { keep = roles-keep }

-- If every committed grant is of admin, reviewer or auditor, the same holds after any requests.
pub serve-role_names :
    (o : Outside) (requests : List Request) (w : World)
    → All (λ r. contains r.role valid_roles ≡ true) w.saved.role_assignments
    → All (λ r. contains r.role valid_roles ≡ true) (serve o requests w).saved.role_assignments
serve-role_names o requests w h = serve-saved o roles-IsStable requests w h

pending-not_failed : (s : IngestionStatus) → s ≡ IngestionStatus.pending → is_failed s ≡ false
pending-not_failed s e = rw (e) refl

failed-keep :
    (c : Change)
    → IsSound c
    → (db : Db) → All (λ d. is_failed d.ingestion_status ≡ false) db.documents
    → All (λ d. is_failed d.ingestion_status ≡ false) (apply c db).documents
unfolding apply
failed-keep (Change.add_document d) (e, n) db h = (pending-not_failed d.ingestion_status e, h)
failed-keep (Change.store_document id bucket key) s db h =
    All-rewrite (λ d. d.id == id) (as_stored bucket key) (λ d g. refl) db.documents h
failed-keep (Change.queue_document id) s db h =
    All-rewrite (λ d. d.id == id) as_queued (λ d g. refl) db.documents h
failed-keep _ s db h = h

failed-IsStable : IsStable (λ db. All (λ d. is_failed d.ingestion_status ≡ false) db.documents)
failed-IsStable = record { keep = failed-keep }

-- If no committed document has the ingestion status `failed`, none has it after any requests: a
-- failed ingestion is seen only in the audit trail.
pub serve-ingestion_status :
    (o : Outside) (requests : List Request) (w : World)
    → All (λ d. is_failed d.ingestion_status ≡ false) w.saved.documents
    → All (λ d. is_failed d.ingestion_status ≡ false) (serve o requests w).saved.documents
serve-ingestion_status o requests w h = serve-saved o failed-IsStable requests w h
