-- ===== src/Classifier/Inference.antt =====
-- backend/app/classifier/inference.py
use document_classifier_week.Prelude.{ℕ, zero, suc, String, Option, none, some, List, [], ◌∷◌}
use document_classifier_week.Models.{Float}
use document_classifier_week.Session.{InferenceResult}

infixl 5 ◌>>=◌
abbrev pub ◌>>=◌ : {A B : Type 0} → Option A → (A → Option B) → Option B
none >>= f = none
some a >>= f = f a

-- `xs[i]`, or an `IndexError`
abbrev pub item : {A : Type 0} → ℕ → List A → Option A
item i [] = none
item zero (x ∷ xs) = some x
item (suc i) (x ∷ xs) = item i xs

-- `{label: float(probs[i].item()) for i, label in enumerate(classes)}`, where the labels differ
unfoldable pub scores_of : List String → List Float → Option (List (String × Float))
scores_of [] probs = some []
scores_of (label ∷ classes) [] = none
scores_of (label ∷ classes) (p ∷ probs) =
    scores_of classes probs >>= λ scores. some ((label, p) ∷ scores)

-- after the network: `probs` is the softmax of the logits and `top1_idx` its argmax
unfoldable pub run_inference : List String → List Float → ℕ → Option InferenceResult
run_inference classes probs top1_idx = do
  top1_conf ← item top1_idx probs
  class_scores ← scores_of classes probs
  predicted_class ← item top1_idx classes
  some (record {
    predicted_class = predicted_class;
    predicted_label_index = top1_idx;
    top1_confidence = top1_conf;
    class_scores = class_scores;
  })
