-- ===== src/ModelCard/Card.antt =====
-- backend/app/domain/model_metadata.py. The annotations of the fields are not checked, so a field holds
-- what the JSON file has.
use document_classifier_week.Prelude.{String, List, [], ◌∷◌}
use document_classifier_week.ModelCard.Values.{Json, Dict}

abbrev pub rvl_cdip_labels : List String
rvl_cdip_labels =
    "letter" ∷ "form" ∷ "email" ∷ "handwritten" ∷ "advertisement" ∷ "scientific report"
    ∷ "scientific publication" ∷ "specification" ∷ "file folder" ∷ "news article" ∷ "budget"
    ∷ "invoice" ∷ "presentation" ∷ "questionnaire" ∷ "resume" ∷ "memo" ∷ []

abbrev pub supported_architectures : List String
supported_architectures = "convnext_tiny" ∷ "convnext_small" ∷ []

pub record ModelCardArtifact (N : Type 0) : Type 0 where
  pub sha256 : Json N
  pub size_bytes : Json N
  pub path : Json N

pub record ModelCardInput (N : Type 0) : Type 0 where
  pub image_size : Json N
  pub channels : Json N
  pub normalization_mean : Json N
  pub normalization_std : Json N

pub record ModelCardMetrics (N : Type 0) : Type 0 where
  pub full_test_top1 : Json N
  pub full_test_top5 : Json N
  pub full_test_n : Json N

pub record ModelCard (N : Type 0) : Type 0 where
  pub name : Json N
  pub version : Json N
  pub backbone : Json N
  pub num_classes : Json N
  pub classes : Json N
  pub artifact : ModelCardArtifact N
  pub input_config : ModelCardInput N
  pub metrics : ModelCardMetrics N
  pub refuse_to_start_threshold : N
  pub raw : Dict N
