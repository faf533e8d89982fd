-- ===== src/Models/Statuses.antt =====
-- The enumerations of backend/app/db/models.py, and the confidence scores.
use document_classifier_week.Prelude.{ℕ, ◌*◌, ◌^◌, Bool, true, false, ltb}

pub data BatchStatus : Type 0 where
  pending processing completed failed : BatchStatus

pub data IngestionStatus : Type 0 where
  pending stored queued processing completed failed : IngestionStatus

pub data JobStatus : Type 0 where
  queued running succeeded retryable_failed terminal_failed : JobStatus

abbrev pub is_failed : IngestionStatus → Bool
is_failed IngestionStatus.failed = true
is_failed _ = false

-- A Python float that is a softmax score. A double of 0 or more is a multiple of 2 ^ -1074, so it is
-- the number of these units; `nan` compares as false.
pub data Float : Type 0 where
  units : ℕ → Float
  nan : Float

-- `a < b`
abbrev pub float_lt : Float → Float → Bool
float_lt (units a) (units b) = ltb a b
float_lt _ _ = false

-- The double that the literal 0.7 denotes: 6305039478318694 * 2 ^ -53.
unfoldable pub review_confidence_threshold : Float
review_confidence_threshold = units (6305039478318694 * 2 ^ 1021)
