-- ===== src/Classifier/Labels.antt =====
-- The label and the scores of an inference with a validated model card.
use document_classifier_week.Prelude.{
  ℕ, zero, suc, ◌≤◌, ◌<◌, ◌≡◌, refl, ap, subst, ◌∙◌, sym, arith, String, Bool, true, false, ◌||◌,
  Option, none, some, List, [], ◌∷◌, ◌==◌, string_eq, contains, length, inl, inr, Bool-cases,
  eq_iff, if◌then◌else◌,
}
use document_classifier_week.Models.{Float}
use document_classifier_week.Session.{InferenceResult}
use document_classifier_week.ModelCard.{rvl_cdip_labels}
use document_classifier_week.PredictionReview.{rvl_cdip_classes}
use document_classifier_week.Classifier.Inference.{◌>>=◌, item, scores_of, run_inference}

abbrev pub IsDistinct : List String → Type 0
IsDistinct [] = Unit
IsDistinct (x ∷ xs) = (contains x xs ≡ false) × IsDistinct xs

-- the score of a class
abbrev pub score : String → List (String × Float) → Option Float
score c [] = none
score c ((label, p) ∷ scores) = if label == c then some p else score c scores

item-total : {A : Type 0} (i : ℕ) (xs : List A) → i < length xs → (a : A) × (item i xs ≡ some a)
item-total i [] h = grind arith
item-total zero (x ∷ xs) h = (x, refl)
item-total (suc i) (x ∷ xs) h = item-total i xs (omega arith)

some-equal : {A : Type 0} {a b : A} → Path (Option A) (some a) (some b) → a ≡ b
some-equal h = grind arith

or_left : (a b : Bool) → a ≡ true → (a || b) ≡ true
or_left a b h = rw (h) refl

or_right : (a b : Bool) → b ≡ true → (a || b) ≡ true
or_right true b h = refl
or_right false b h = h

contains-item : (i : ℕ) (xs : List String) (c : String) → item i xs ≡ some c → contains c xs ≡ true
contains-item i [] c h = grind arith
contains-item zero (x ∷ xs) c h =
    or_left (c == x) (contains c xs) ((eq_iff c x).1 (sym (some-equal h)))
contains-item (suc i) (x ∷ xs) c h = or_right (c == x) (contains c xs) (contains-item i xs c h)

scores_of-total :
    (classes : List String) (probs : List Float)
    → length classes ≤ length probs
    → (s : List (String × Float)) × (scores_of classes probs ≡ some s)
unfolding scores_of
scores_of-total [] probs h = ([], refl)
scores_of-total (c ∷ classes) [] h = grind arith
scores_of-total (c ∷ classes) (p ∷ probs) h =
    let (s, e) = scores_of-total classes probs (omega arith) in ((c, p) ∷ s, rw (e) refl)

bind_inv :
    {A B : Type 0} (m : Option A) (f : A → Option B) (b : B)
    → (m >>= f) ≡ some b
    → (a : A) × (m ≡ some a) × (f a ≡ some b)
bind_inv none f b h = grind arith
bind_inv (some a) f b h = (a, refl, h)

-- a text that is in a list is not one that is not
differs :
    (x c : String) (xs : List String)
    → contains x xs ≡ false
    → contains c xs ≡ true
    → (x == c) ≡ false
differs x c xs out here = elim (Bool-cases (x == c)) [
  | inl e ↦ absurd (true-false (sym here ∙ ap (λ y. contains y xs) (sym ((eq_iff x c).0 e)) ∙ out))
  | inr e ↦ e
]
  where
    true-false : true ≡ false → ⊥
    true-false h = grind arith

-- the score of the class at an index is the probability there
score-item :
    (i : ℕ) (classes : List String) (probs : List Float) (s : List (String × Float)) (c : String)
    (p : Float)
    → IsDistinct classes
    → scores_of classes probs ≡ some s
    → item i classes ≡ some c
    → item i probs ≡ some p
    → score c s ≡ some p
unfolding scores_of
score-item i [] probs s c p distinct made class prob = grind arith
score-item i (x ∷ classes) [] s c p distinct made class prob = grind arith
score-item zero (x ∷ classes) (q ∷ probs) s c p distinct made class prob =
    let (rest, e, e') = bind_inv (scores_of classes probs) _ s made in
    subst (λ t. score c t ≡ some p) (some-equal e')
      (rw ((eq_iff x c).1 (some-equal class), if◌then◌else◌) prob)
score-item (suc i) (x ∷ classes) (q ∷ probs) s c p (out, distinct) made class prob =
    let (rest, e, e') = bind_inv (scores_of classes probs) _ s made in
    let other = differs x c classes out (contains-item i classes c class) in
    subst (λ t. score c t ≡ some p) (some-equal e')
      (rw (other, if◌then◌else◌) (score-item i classes probs rest c p distinct e class prob))

labels-IsDistinct : IsDistinct rvl_cdip_labels
labels-IsDistinct = (
  refl,
  (
    refl,
    (
      refl,
      (
        refl,
        (
          refl,
          (
            refl,
            (refl, (refl, (refl, (refl, (refl, (refl, (refl, (refl, (refl, (refl, tt)))))))))),
          ),
        ),
      ),
    ),
  ),
)

-- For the 16 labels of the model card, 16 probabilities and an index below 16, `run_inference` gives a
-- result: its class is a label that the reviewers may choose too, its index is that one, its confidence
-- is the probability at the index, and the score of its class in the full distribution is this
-- confidence.
pub run_inference-labels :
    (probs : List Float) (top1_idx : ℕ)
    → length probs ≡ 16
    → top1_idx < 16
    → (r : InferenceResult) × (run_inference rvl_cdip_labels probs top1_idx ≡ some r)
      × (contains r.predicted_class rvl_cdip_classes ≡ true)
      × (r.predicted_label_index ≡ top1_idx)
      × (item top1_idx probs ≡ some r.top1_confidence)
      × (score r.predicted_class r.class_scores ≡ some r.top1_confidence)
unfolding run_inference
run_inference-labels probs top1_idx sixteen below =
    let (p, prob) = item-total top1_idx probs (omega arith) in
    let (c, class) = item-total top1_idx rvl_cdip_labels (omega arith) in
    let (s, made) = scores_of-total rvl_cdip_labels probs (omega arith) in
    (
      record {
        predicted_class = c;
        predicted_label_index = top1_idx;
        top1_confidence = p;
        class_scores = s;
      },
      rw (prob, made, class) refl,
      contains-item top1_idx rvl_cdip_classes c class,
      refl,
      prob,
      score-item top1_idx rvl_cdip_labels probs s c p labels-IsDistinct made class prob,
    )
