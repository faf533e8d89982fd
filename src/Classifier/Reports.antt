-- ===== src/Classifier/Reports.antt =====
-- What a report of the golden set says.
use document_classifier_week.Prelude.{
  ◌*◌, ◌^◌, not, ltb, ℕ, suc, ◌+◌, ◌-◌, ◌≤◌, ◌≡◌, refl, ap, arith, String, Bool, true, false, ◌↔◌,
  Option, none, some, List, [], ◌∷◌, ◌==◌, nat_eq, length, select, map, All, inl, inr, Bool-cases,
  if◌then◌else◌, nat_beq_iff, both,
}
use document_classifier_week.Models.{Float, units, nan}
use document_classifier_week.Classifier.Inference.{item}
use document_classifier_week.Classifier.GoldenReplay.{
  Entry, success, is_close, rounded, confidence_tolerance, with_class, outcome, replay,
  run_golden_replay,
}

module _ {A : Type 0} (p : A → Bool) where
  length-select_le : (xs : List A) → length (select p xs) ≤ length xs
  length-select_le [] = omega arith
  length-select_le (x ∷ xs) =
      let rest = length-select_le xs in
      elim (Bool-cases (p x)) [
        | inl e ↦ rw (e, if◌then◌else◌) (omega arith)
        | inr e ↦ rw (e, if◌then◌else◌) (omega arith)
      ]

  All-selected : (xs : List A) → length xs ≤ length (select p xs) → All (λ x. p x ≡ true) xs
  All-selected [] h = tt
  All-selected (x ∷ xs) h = one (p x) refl h (length-select_le xs) (All-selected xs)
    where
      one :
          (b : Bool)
          → p x ≡ b
          → suc (length xs) ≤ length (if b then x ∷ select p xs else select p xs)
          → length (select p xs) ≤ length xs
          → (length xs ≤ length (select p xs) → All (λ x. p x ≡ true) xs)
          → (p x ≡ true) × All (λ x. p x ≡ true) xs
      one true e h bound rest = (e, rest (omega arith))
      one false e h bound rest = grind arith

  select-All : (xs : List A) → All (λ x. p x ≡ true) xs → length (select p xs) ≡ length xs
  select-All [] h = refl
  select-All (x ∷ xs) (h, hs) = rw (h, if◌then◌else◌) (ap suc (select-All xs hs))

-- Two confidences, neither of them a NaN, whose difference, as a double, is 1e-6 at most.
abbrev pub IsNear : Float → Float → Type 0
IsNear conf expected =
    (a : ℕ) × (b : ℕ) × (conf ≡ units a)
    × (expected ≡ units b)
    × (rounded ((a - b) + (b - a)) ≤ 4722366482869645 * 2 ^ 1002)

at_most : (t x : ℕ) → (not (ltb t x) ≡ true) ↔ (x ≤ t)
at_most t x = (λ h. ground arith, λ h. ground arith)

is_close-IsNear : (conf expected : Float) → is_close conf expected ≡ true → IsNear conf expected
unfolding is_close confidence_tolerance
is_close-IsNear (units a) (units b) h = (a, b, refl, refl, (at_most _ _).0 h)
is_close-IsNear (units a) nan h = grind arith
is_close-IsNear nan b h = grind arith

IsNear-is_close : (conf expected : Float) → IsNear conf expected → is_close conf expected ≡ true
unfolding is_close confidence_tolerance
IsNear-is_close conf expected (a, b, e, e', h) = rw (e, e') ((at_most _ _).1 h)

module _ (classes : List String) (classify : String → Option (ℕ × Float)) where
  -- The classifier answers for the entry's file with the label that is expected, the name of which the
  -- card has, and with a confidence that is close to the one that is expected.
  abbrev pub Reproduces : Entry → Type 0
  Reproduces entry =
      (label : ℕ) × (conf : Float) × (class : String) × (classify entry.filename
        ≡ some (label, conf))
      × (item label classes ≡ some class)
      × (label ≡ entry.model_predicted_label)
      × IsNear conf entry.expected_top1_confidence

  passed-Reproduces :
      (entry : Entry) → (replay classes classify entry).passed ≡ true → Reproduces entry
  unfolding replay
  passed-Reproduces entry h = cases (classify entry.filename) refl h
    where
      named :
          (label : ℕ) (conf : Float) (class : Option String)
          → item label classes ≡ class
          → (with_class classes classify entry label conf class).passed ≡ true
          → (c : String) × (item label classes ≡ some c)
            × (label ≡ entry.model_predicted_label)
            × (is_close conf entry.expected_top1_confidence ≡ true)
      named label conf none e h = grind arith
      named label conf (some c) e h =
          let (same, close) = both (label == entry.model_predicted_label) _ h in
          (c, e, (nat_beq_iff label entry.model_predicted_label).0 same, close)

      cases :
          (answer : Option (ℕ × Float))
          → classify entry.filename ≡ answer
          → (outcome classes classify entry answer).passed ≡ true
          → Reproduces entry
      cases none e h = grind arith
      cases (some (label, conf)) e h =
          let (c, class, same, close) = named label conf (item label classes) refl h in
          (
            label,
            conf,
            c,
            e,
            class,
            same,
            is_close-IsNear conf entry.expected_top1_confidence close,
          )

  Reproduces-passed :
      (entry : Entry) → Reproduces entry → (replay classes classify entry).passed ≡ true
  unfolding replay
  Reproduces-passed entry (label, conf, class, answer, name, same, close) =
      rw
        (
          answer,
          name,
          IsNear-is_close conf entry.expected_top1_confidence close,
          (nat_beq_iff label entry.model_predicted_label).1 same,
        )
        refl

  All-replayed :
      (entries : List Entry)
      → All (λ r. r.passed ≡ true) (map (replay classes classify) entries)
      → All Reproduces entries
  All-replayed [] h = tt
  All-replayed (entry ∷ entries) (h, hs) = (passed-Reproduces entry h, All-replayed entries hs)

  All-reproduced :
      (entries : List Entry)
      → All Reproduces entries
      → All (λ r. r.passed ≡ true) (map (replay classes classify) entries)
  All-reproduced [] h = tt
  All-reproduced (entry ∷ entries) (h, hs) = (Reproduces-passed entry h, All-reproduced entries hs)

  -- A replay of the golden set is a success exactly if the classifier reproduces every entry: it
  -- answers for the file with the expected label, which the card names, and with a confidence that
  -- differs from the expected one, as a double, by 1e-6 at most.
  pub run_golden_replay-success :
      (entries : List Entry)
      → (success (run_golden_replay classes classify entries) ≡ true) ↔ All Reproduces entries
  unfolding run_golden_replay
  run_golden_replay-success entries =
      let results = map (replay classes classify) entries in
      (
        λ ok. All-replayed entries (
            All-selected (λ r. r.passed) results
              (none_failed _ _ ((nat_beq_iff (length results - _) 0).0 ok))),
        λ h.
            (nat_beq_iff _ 0).1
              (no_rest _ _ (select-All (λ r. r.passed) results (All-reproduced entries h))),
      )
    where
      none_failed : (n m : ℕ) → n - m ≡ 0 → n ≤ m
      none_failed n m h = omega arith

      no_rest : (n m : ℕ) → m ≡ n → n - m ≡ 0
      no_rest n m h = omega arith
