-- ===== src/Tests/Classifiers.antt =====
-- The theorems on the model card, the digest, the inference and the golden set, at small inputs.
use document_classifier_week.Prelude.{
  ℕ, ◌+◌, ◌^◌, false, ◌≡◌, refl, ap, arith, String, true, ◌↔◌, Option, none, some, List, [], ◌∷◌,
  ◌++◌, ◌==◌, string_eq, ltb, nat_beq, nat_eq, All, contains, if◌then◌else◌,
}
use document_classifier_week.Models.{Bytes, Float, units}
use document_classifier_week.Session.{InferenceResult}
use document_classifier_week.PredictionReview.{rvl_cdip_classes}
use document_classifier_week.ModelCard.{
  Json, Dict, Items, entry, empty, nil, cons, Numbers, Hash, Assets, ModelCard, rvl_cdip_labels,
  validate_all, load_and_validate_model_card, parse_card, read_blocks, read_artifact, read_input,
  read_metrics, validate_classifier_checksum, validate_accuracy_threshold, sha256_of_file,
  update_chunks,
}
use document_classifier_week.ModelCard.Checks.{texts}
use document_classifier_week.ModelCard.Digest.{IsIncremental, update_chunks-enough}
use document_classifier_week.ModelCard.Accepted.{IsCard, IsIntact, IsAccurate, validate_all-accepts}
use document_classifier_week.Classifier.{
  item, run_inference, Entry, success, run_golden_replay, replay, is_close, rounded,
  confidence_tolerance,
}
use document_classifier_week.Classifier.Labels.{score, run_inference-labels}
use document_classifier_week.Classifier.Reports.{Reproduces, run_golden_replay-success}

-- a digest that tells empty files from others
abbrev hash : Hash Bytes
hash = record {
  new = [];
  update = λ h b. h ++ b;
  hexdigest = λ h. elim h [ [] ↦ "empty" | x ∷ xs ↦ "full" ];
}

append_nil : (h : Bytes) → h ++ [] ≡ h
append_nil [] = refl
append_nil (x ∷ h) = ap (λ t. x ∷ t) (append_nil h)

append_assoc : (h a b : Bytes) → (h ++ a) ++ b ≡ h ++ (a ++ b)
append_assoc [] a b = refl
append_assoc (x ∷ h) a b = ap (λ t. x ∷ t) (append_assoc h a b)

hash-IsIncremental : IsIncremental hash
hash-IsIncremental = record { update-nil = append_nil; update-append = append_assoc }

update_chunks-enough_example : update_chunks hash 2 4 [] (1 ∷ 2 ∷ 3 ∷ []) ≡ some (1 ∷ 2 ∷ 3 ∷ [])
update_chunks-enough_example =
    update_chunks-enough hash hash-IsIncremental 2 4 [] (1 ∷ 2 ∷ 3 ∷ []) (omega arith) (omega arith)

-- whole numbers in hundredths, for the literals that the code uses
abbrev numbers : Numbers ℕ
numbers = record {
  literal = λ s. if s == "16" then 1600 else 0;
  equal = nat_beq;
  lt = ltb;
  parse_float = λ s. none;
  to_double = λ n. some n;
}

abbrev card_json : String → Json ℕ
card_json digest = Json.obj (
    entry "backbone" (Json.str "convnext_tiny") (
      entry "num_classes" (Json.number 1600) (
        entry "classes" (Json.arr (texts rvl_cdip_labels)) (
          entry "artifact"
            (Json.obj (
              entry "sha256" (Json.str digest) (
                entry "size_bytes" (Json.number 100)
                  (entry "path" (Json.str "classifier.pt") empty))))
            (entry "input" (Json.obj empty) (
              entry "metrics"
                (Json.obj
                  (entry "full_test" (Json.obj (entry "top1" (Json.number 88) empty)) empty))
                (entry "refuse_to_start_threshold" (Json.number 80) empty)))))))

abbrev assets : Assets ℕ
assets = record { classifier = some (1 ∷ []); model_card = some (some (card_json "full")) }

abbrev zeros : ℕ → Items ℕ
zeros n = cons (Json.number 0) (cons (Json.number 0) (cons (Json.number n) nil))

abbrev card : Dict ℕ → ModelCard ℕ
card raw = record {
  name = Json.str "";
  version = Json.str "";
  backbone = Json.str "convnext_tiny";
  num_classes = Json.number 1600;
  classes = Json.arr (texts rvl_cdip_labels);
  artifact = record {
    sha256 = Json.str "full";
    size_bytes = Json.number 100;
    path = Json.str "classifier.pt";
  };
  input_config = record {
    image_size = Json.number 0;
    channels = Json.number 0;
    normalization_mean = Json.arr (zeros 0);
    normalization_std = Json.arr (zeros 0);
  };
  metrics = record {
    full_test_top1 = Json.number 88;
    full_test_top5 = Json.number 0;
    full_test_n = Json.number 0;
  };
  refuse_to_start_threshold = 80;
  raw = raw;
}

abbrev raw : Dict ℕ
raw = elim (card_json "full") [ Json.obj d ↦ d | _ ↦ empty ]

validate_all-accepts_example :
    IsCard numbers (card raw)
    × IsIntact hash assets.classifier (card raw)
    × IsAccurate numbers (card raw)
unfolding validate_all load_and_validate_model_card parse_card read_blocks read_artifact read_input
    read_metrics validate_classifier_checksum validate_accuracy_threshold sha256_of_file
    update_chunks
validate_all-accepts_example =
    validate_all-accepts hash hash-IsIncremental numbers assets (card raw) refl

abbrev sixteen : List Float
sixteen =
    units 1
    ∷ units 2
    ∷ units 3
    ∷ units 4
    ∷ units 5
    ∷ units 6
    ∷ units 7
    ∷ units 8
    ∷ units 9
    ∷ units 10
    ∷ units 11
    ∷ units 12
    ∷ units 13
    ∷ units 14
    ∷ units 15
    ∷ units 90
    ∷ []

run_inference-labels_example :
    (r : InferenceResult) × (run_inference rvl_cdip_labels sixteen 15 ≡ some r)
    × (contains r.predicted_class rvl_cdip_classes ≡ true)
    × (r.predicted_label_index ≡ 15)
    × (item 15 sixteen ≡ some r.top1_confidence)
    × (score r.predicted_class r.class_scores ≡ some r.top1_confidence)
run_inference-labels_example = run_inference-labels sixteen 15 refl (omega arith)

abbrev entries : List Entry
entries =
    record {
      filename = "a";
      model_predicted_label = 15;
      model_predicted_class = "memo";
      expected_top1_confidence = units 90;
    }
    ∷ []

abbrev answers : String → Option (ℕ × Float)
answers s = some (15, units 90)

-- a confidence that differs by more than the tolerance
abbrev wrong : String → Option (ℕ × Float)
wrong s = some (15, units (90 + 2 ^ 1055))

replay-passes : success (run_golden_replay rvl_cdip_labels answers entries) ≡ true
unfolding run_golden_replay replay is_close rounded confidence_tolerance
replay-passes = refl

replay-fails : success (run_golden_replay rvl_cdip_labels wrong entries) ≡ false
unfolding run_golden_replay replay is_close rounded confidence_tolerance
replay-fails = refl

run_golden_replay-success_example :
    (success (run_golden_replay rvl_cdip_labels answers entries) ≡ true)
    ↔ All (Reproduces rvl_cdip_labels answers) entries
run_golden_replay-success_example = run_golden_replay-success rvl_cdip_labels answers entries
