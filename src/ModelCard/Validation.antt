-- ===== src/ModelCard/Validation.antt =====
-- backend/app/classifier/validation.py
use document_classifier_week.Prelude.{
  String, Bool, false, not, ◌||◌, Option, none, some, List, [], ◌∷◌, nat_eq, ◌==◌, contains,
  string_eq,
}
use document_classifier_week.Models.{Bytes}
use document_classifier_week.ModelCard.Values.{
  Json, Items, Dict, nil, cons, empty, Numbers, classifier_validation_error, type_error, Checked,
  ok, err, ◌>>=◌, ◌>>◌, refuse_if, get_or, has_key, is_string, as_dict, contains_key, subscript,
  same_strings, count, equals_literal, to_float, less_than,
}
use document_classifier_week.ModelCard.Checksum.{Hash, sha256_of_file}
use document_classifier_week.ModelCard.Card.{
  rvl_cdip_labels, supported_architectures, ModelCardArtifact, ModelCardInput, ModelCardMetrics,
  ModelCard,
}

-- The two files: absent, or read. `model_card.json` is a value, or raises `JSONDecodeError`.
pub record Assets (N : Type 0) : Type 0 where
  pub classifier : Option Bytes
  pub model_card : Option (Option (Json N))

abbrev pub required : List String
required =
    "backbone" ∷ "num_classes" ∷ "classes" ∷ "artifact" ∷ "input" ∷ "metrics"
    ∷ "refuse_to_start_threshold" ∷ []

module _ {N : Type 0} where
  abbrev pub is_missing_any : List String → Dict N → Bool
  is_missing_any [] d = false
  is_missing_any (key ∷ keys) d = not (has_key key d) || is_missing_any keys d

  -- `backbone not in SUPPORTED_ARCHITECTURES`: a list or a dictionary has no hash
  abbrev pub check_backbone : Json N → Checked Unit
  check_backbone (Json.str s) =
      refuse_if (not (contains s supported_architectures)) classifier_validation_error
  check_backbone (Json.arr items) = err type_error
  check_backbone (Json.obj d) = err type_error
  check_backbone _ = err classifier_validation_error

  -- a list of 16 labels
  abbrev pub is_sixteen_long : Json N → Bool
  is_sixteen_long (Json.arr items) = count items == 16
  is_sixteen_long _ = false

  -- one key of the loop over the artifact's keys
  abbrev check_artifact_key : String → Json N → Checked Unit
  check_artifact_key key artifact =
      contains_key key artifact >>= λ found. refuse_if (not found) classifier_validation_error

  unfoldable pub read_artifact : Json N → Checked (ModelCardArtifact N)
  read_artifact artifact = do
    check_artifact_key "sha256" artifact
    check_artifact_key "size_bytes" artifact
    check_artifact_key "path" artifact
    sha256 ← subscript "sha256" artifact
    size_bytes ← subscript "size_bytes" artifact
    path ← subscript "path" artifact
    ok (record { sha256 = sha256; size_bytes = size_bytes; path = path })

  -- the value of a key that `required` has ensured
  abbrev pub at : String → Dict N → Json N
  at key d = get_or key Json.null d

  module _ (ops : Numbers N) where
    abbrev numbers : List String → Items N
    numbers [] = nil
    numbers (l ∷ ls) = cons (Json.number (ops.literal l)) (numbers ls)

    unfoldable pub read_input : Dict N → Checked (ModelCardInput N)
    read_input raw = do
      inp ← as_dict (get_or "input" (Json.obj empty) raw)
      norm ← as_dict (get_or "normalization" (Json.obj empty) inp)
      ok (record {
        image_size = get_or "image_size" (Json.number (ops.literal "224")) inp;
        channels = get_or "channels" (Json.number (ops.literal "3")) inp;
        normalization_mean =
            get_or "mean" (Json.arr (numbers ("0.485" ∷ "0.456" ∷ "0.406" ∷ []))) norm;
        normalization_std =
            get_or "std" (Json.arr (numbers ("0.229" ∷ "0.224" ∷ "0.225" ∷ []))) norm;
      })

    unfoldable pub read_metrics : Dict N → Checked (ModelCardMetrics N)
    read_metrics raw = do
      metrics ← as_dict (get_or "metrics" (Json.obj empty) raw)
      full_test ← as_dict (get_or "full_test" (Json.obj empty) metrics)
      ok (record {
        full_test_top1 = get_or "top1" (Json.number (ops.literal "0.0")) full_test;
        full_test_top5 = get_or "top5" (Json.number (ops.literal "0.0")) full_test;
        full_test_n = get_or "n" (Json.number (ops.literal "0")) full_test;
      })

    -- the blocks of the card, after the checks of the top level
    unfoldable pub read_blocks : Dict N → Checked (ModelCard N)
    read_blocks raw = do
      artifact ← read_artifact (at "artifact" raw)
      input_config ← read_input raw
      metrics ← read_metrics raw
      threshold ← to_float ops (at "refuse_to_start_threshold" raw)
      ok (record {
        name = get_or "name" (Json.str "") raw;
        version = get_or "version" (Json.str "") raw;
        backbone = at "backbone" raw;
        num_classes = at "num_classes" raw;
        classes = at "classes" raw;
        artifact = artifact;
        input_config = input_config;
        metrics = metrics;
        refuse_to_start_threshold = threshold;
        raw = raw;
      })

    unfoldable pub parse_card : Json N → Checked (ModelCard N)
    parse_card value = do
      raw ← as_dict value
      refuse_if (is_missing_any required raw) classifier_validation_error
      check_backbone (at "backbone" raw)
      refuse_if (not (equals_literal ops "16" (at "num_classes" raw))) classifier_validation_error
      refuse_if (not (is_sixteen_long (at "classes" raw))) classifier_validation_error
      refuse_if (not (same_strings (at "classes" raw) rvl_cdip_labels)) classifier_validation_error
      read_blocks raw

    unfoldable pub load_and_validate_model_card : Option (Option (Json N)) → Checked (ModelCard N)
    load_and_validate_model_card none = err classifier_validation_error
    load_and_validate_model_card (some none) = err classifier_validation_error
    load_and_validate_model_card (some (some value)) = parse_card value

    unfoldable pub validate_accuracy_threshold : ModelCard N → Checked Unit
    validate_accuracy_threshold card = do
      below ← less_than ops card.metrics.full_test_top1 card.refuse_to_start_threshold
      refuse_if below classifier_validation_error

  -- `actual != expected`
  abbrev pub compare_checksum : Option String → Json N → Checked Unit
  compare_checksum none expected = err classifier_validation_error
  compare_checksum (some actual) expected =
      refuse_if (not (is_string actual expected)) classifier_validation_error

  module _ {S : Type 0} (hash : Hash S) where
    unfoldable pub validate_classifier_checksum : Option Bytes → ModelCard N → Checked Unit
    validate_classifier_checksum none card = err classifier_validation_error
    validate_classifier_checksum (some content) card =
        compare_checksum (sha256_of_file hash content) card.artifact.sha256

module _ {N S : Type 0} (ops : Numbers N) (hash : Hash S) where
  unfoldable pub validate_all : Assets N → Checked (ModelCard N)
  validate_all files = do
    card ← load_and_validate_model_card ops files.model_card
    validate_classifier_checksum hash files.classifier card
    validate_accuracy_threshold ops card
    ok card
