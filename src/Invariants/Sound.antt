-- ===== src/Invariants/Sound.antt =====
-- The condition that each change of a row meets wherever the program writes it.
use document_classifier_week.Prelude.{
  Bool, not, arith, ◌≡◌, ◌⊎◌, true, false, none, contains, string_eq,
}
use document_classifier_week.Models.{
  IngestionStatus, JobStatus, Db, Change, apply, float_lt, review_confidence_threshold,
}
use document_classifier_week.Session.{write}
use document_classifier_week.Session.Keeps.{Keeps}
use document_classifier_week.Session.Tables.{Holds, Holds-write}
use document_classifier_week.RoleManagement.{valid_roles}
use document_classifier_week.PredictionReview.{rvl_cdip_classes}

abbrev pub IsSound : Change → Type 0
IsSound (Change.add_user u) = (u.is_active ≡ false) × (u.is_superuser ≡ false)
IsSound (Change.add_role a) = (contains a.role valid_roles ≡ true) × (a.revoked_at ≡ none)
IsSound (Change.add_document d) =
    (d.ingestion_status ≡ IngestionStatus.pending) × (d.blob_key ≡ none)
IsSound (Change.add_prediction p) =
    (p.review_eligible ≡ float_lt p.top1_confidence review_confidence_threshold)
    × (p.review_label ≡ none)
IsSound (Change.fail_job id status error t) =
    (status ≡ JobStatus.retryable_failed) ⊎ (status ≡ JobStatus.terminal_failed)
IsSound (Change.relabel id label user_id t) = contains label rvl_cdip_classes ≡ true
IsSound _ = Unit

pub not-false : {b : Bool} → not b ≡ false → b ≡ true
not-false h = ground arith

-- Every sound change keeps `G`.
pub record IsStable (G : Db → Type 0) : Type 0 where
  pub keep : (c : Change) → IsSound c → (db : Db) → G db → G (apply c db)

-- Such a property is kept by the write of a sound change.
pub sound_write :
    {G : Db → Type 0} (c : Change) → IsStable G → IsSound c → Keeps (Holds G) (write c)
sound_write c s h = Holds-write c (s.keep c h)
