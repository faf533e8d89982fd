-- ===== src/Classifier/GoldenReplay.antt =====
-- backend/app/classifier/golden_replay.py
use document_classifier_week.Prelude.{
  ℕ, zero, suc, ◌+◌, ◌*◌, ◌/◌, ◌%◌, ◌^◌, ◌-◌, ltb, not, ◌||◌, if◌then◌else◌, String, Bool, true,
  false, ◌&&◌, Option, none, some, List, [], ◌∷◌, ◌++◌, ◌==◌, nat_eq, length, select, map,
}
use document_classifier_week.Models.{Float, units}
use document_classifier_week.Classifier.Inference.{item}

-- an entry of golden_expected.json
pub record Entry : Type 0 where
  pub filename : String
  pub model_predicted_label : ℕ
  pub model_predicted_class : String
  pub expected_top1_confidence : Float

-- the parts of `failure_reason`, without their figures
pub data Failure : Type 0 where
  label_mismatch confidence_mismatch exception : Failure

-- Before the classifier has answered, `actual_label` is -1 and `actual_confidence` is 0.0: nothing.
pub record GoldenResult : Type 0 where
  pub filename : String
  pub expected_label : ℕ
  pub expected_class : String
  pub expected_confidence : Float
  pub actual_label : Option ℕ
  pub actual_class : String
  pub actual_confidence : Option Float
  pub passed : Bool
  pub failure_reason : List Failure

pub record ReplayReport : Type 0 where
  pub total : ℕ
  pub passed : ℕ
  pub failed : ℕ
  pub results : List GoldenResult

abbrev pub success : ReplayReport → Bool
success report = report.failed == 0

-- `if not ok: parts.append(…)`
abbrev part_if : Bool → Failure → List Failure
part_if true failure = []
part_if false failure = failure ∷ []

-- `_CONFIDENCE_TOLERANCE`: the double that the literal 1e-6 denotes, 4722366482869645 * 2 ^ -72
unfoldable pub confidence_tolerance : ℕ
confidence_tolerance = 4722366482869645 * 2 ^ 1002

-- how many bits a number of units has beyond the 53 of a double; none has more than 2046
abbrev excess : ℕ → ℕ → ℕ
excess zero n = 0
excess (suc fuel) n = elim (ltb n (2 ^ 53)) [ true ↦ 0 | false ↦ suc (excess fuel (n / 2)) ]

-- `q` units of `2 ^ k` and a rest `r`, rounded half to even
abbrev round_off : ℕ → ℕ → ℕ → ℕ
round_off q r k =
    if ltb (2 ^ k) (2 * r) || (2 * r == 2 ^ k && q % 2 == 1) then (q + 1) * 2 ^ k else q * 2 ^ k

-- the double nearest to a number of units
unfoldable pub rounded : ℕ → ℕ
rounded n = let k = excess 2046 n in round_off (n / 2 ^ k) (n % 2 ^ k) k

-- `abs(actual_conf - expected_conf) <= _CONFIDENCE_TOLERANCE`
unfoldable pub is_close : Float → Float → Bool
is_close (units a) (units b) = not (ltb confidence_tolerance (rounded ((a - b) + (b - a))))
is_close _ _ = false

-- the classes of the card, and what the network says of a fixture (its label and confidence, or an
-- exception)
module _ (classes : List String) (classify : String → Option (ℕ × Float)) where
  -- the comparison with the expected values
  abbrev compared : Entry → ℕ → Float → String → GoldenResult
  compared entry label conf class =
      let label_ok = label == entry.model_predicted_label in
      let conf_ok = is_close conf entry.expected_top1_confidence in
      record {
        filename = entry.filename;
        expected_label = entry.model_predicted_label;
        expected_class = entry.model_predicted_class;
        expected_confidence = entry.expected_top1_confidence;
        actual_label = some label;
        actual_class = class;
        actual_confidence = some conf;
        passed = label_ok && conf_ok;
        failure_reason = part_if label_ok label_mismatch ++ part_if conf_ok confidence_mismatch;
      }

  -- `except Exception`, with what was set before
  abbrev failed_with : Entry → Option ℕ → Option Float → GoldenResult
  failed_with entry label conf = record {
    filename = entry.filename;
    expected_label = entry.model_predicted_label;
    expected_class = entry.model_predicted_class;
    expected_confidence = entry.expected_top1_confidence;
    actual_label = label;
    actual_class = "";
    actual_confidence = conf;
    passed = false;
    failure_reason = exception ∷ [];
  }

  abbrev pub with_class : Entry → ℕ → Float → Option String → GoldenResult
  with_class entry label conf none = failed_with entry (some label) (some conf)
  with_class entry label conf (some class) = compared entry label conf class

  abbrev pub outcome : Entry → Option (ℕ × Float) → GoldenResult
  outcome entry none = failed_with entry none none
  outcome entry (some (label, conf)) = with_class entry label conf (item label classes)

  -- one round of the loop
  unfoldable pub replay : Entry → GoldenResult
  replay entry = outcome entry (classify entry.filename)

  unfoldable pub run_golden_replay : List Entry → ReplayReport
  run_golden_replay entries =
      let results = map replay entries in
      let passed_count = length (select (λ r. r.passed) results) in
      record {
        total = length results;
        passed = passed_count;
        failed = length results - passed_count;
        results = results;
      }
