-- ===== src/ModelCard/Accepted.antt =====
-- What the classifier's assets satisfy when the validation passes.
use document_classifier_week.Prelude.{
  ◌≡◌, refl, sym, ◌∙◌, ap, String, true, false, not, Option, none, some, arith, contains, string_eq,
  not-false, subst,
}
use document_classifier_week.Models.{Bytes}
use document_classifier_week.ModelCard.Values.{
  Json, Dict, Numbers, classifier_validation_error, ok, is_string, same_strings, as_number,
  equals_literal, to_float, as_dict, refuse_if, err, type_error, ◌>>=◌,
}
use document_classifier_week.ModelCard.Checksum.{Hash, sha256_of_file}
use document_classifier_week.ModelCard.Checks.{
  Passes, Passes-ok, Passes-err, Passes-any, Passes-bind, Passes-refuse_if, texts, is_string-str,
  same_strings-texts,
}
use document_classifier_week.ModelCard.Digest.{IsIncremental, sha256_of_file-whole}
use document_classifier_week.ModelCard.Card.{rvl_cdip_labels, supported_architectures, ModelCard}
use document_classifier_week.ModelCard.Validation.{
  Assets, check_backbone, read_artifact, read_input, read_metrics, read_blocks, parse_card,
  load_and_validate_model_card, validate_accuracy_threshold, validate_classifier_checksum,
  compare_checksum, validate_all, at, required, is_missing_any, is_sixteen_long,
}

-- the backbone is the name of a supported architecture
abbrev pub IsSupported : {N : Type 0} → Json N → Type 0
IsSupported backbone =
    (s : String) × (backbone ≡ Json.str s) × (contains s supported_architectures ≡ true)

module _ {N : Type 0} (ops : Numbers N) where
  abbrev pub IsCard : ModelCard N → Type 0
  IsCard card =
      IsSupported card.backbone
      × (equals_literal ops "16" card.num_classes ≡ true)
      × (card.classes ≡ Json.arr (texts rvl_cdip_labels))

  Passes-backbone : (j : Json N) → Passes (check_backbone j) (λ a. IsSupported j)
  Passes-backbone (Json.str s) = record {
    value = λ a h. (s, refl, not-false _ ((Passes-refuse_if _ _).value a h));
  }
  Passes-backbone (Json.arr items) = Passes-err _
  Passes-backbone (Json.obj d) = Passes-err _
  Passes-backbone Json.null = Passes-err _
  Passes-backbone (Json.bool b) = Passes-err _
  Passes-backbone (Json.number n) = Passes-err _

  Passes-read_blocks :
      (raw : Dict N)
      → Passes (read_blocks ops raw) (λ card.
        (card.backbone ≡ at "backbone" raw)
        × (card.num_classes ≡ at "num_classes" raw)
        × (card.classes ≡ at "classes" raw))
  unfolding read_blocks
  Passes-read_blocks raw =
      Passes-bind (Passes-any (read_artifact (at "artifact" raw))) (λ artifact _.
        Passes-bind (Passes-any (read_input ops raw)) (λ input_config _.
          Passes-bind (Passes-any (read_metrics ops raw)) (λ metrics _.
            Passes-bind (Passes-any (to_float ops (at "refuse_to_start_threshold" raw)))
              (λ threshold _. Passes-ok _ (refl, refl, refl)))))

  Passes-parse_card : (value : Json N) → Passes (parse_card ops value) IsCard
  unfolding parse_card
  Passes-parse_card value = Passes-bind (Passes-any (as_dict value)) (λ raw _.
      Passes-bind (Passes-refuse_if (is_missing_any required raw) _) (λ _ keys.
        Passes-bind (Passes-backbone (at "backbone" raw)) (λ _ supported.
          Passes-bind (Passes-refuse_if (not (equals_literal ops "16" (at "num_classes" raw))) _)
            (λ _ sixteen.
              Passes-bind (Passes-refuse_if (not (is_sixteen_long (at "classes" raw))) _) (λ _ long.
                Passes-bind
                  (Passes-refuse_if (not (same_strings (at "classes" raw) rvl_cdip_labels)) _)
                  (λ _ same. record {
                    value = λ card h.
                        let (b, n, c) = (Passes-read_blocks raw).value card h in
                        (
                          subst IsSupported (sym b) supported,
                          ap (equals_literal ops "16") n ∙ not-false _ sixteen,
                          c
                              ∙ same_strings-texts (at "classes" raw) rvl_cdip_labels
                                  (not-false _ same),
                        );
                  }))))))

  Passes-load :
      (file : Option (Option (Json N))) → Passes (load_and_validate_model_card ops file) IsCard
  unfolding load_and_validate_model_card
  Passes-load none = Passes-err _
  Passes-load (some none) = Passes-err _
  Passes-load (some (some value)) = Passes-parse_card value

  -- the accuracy is a number that is not below the threshold
  abbrev pub IsAccurate : ModelCard N → Type 0
  IsAccurate card =
      (top1 : N) × (as_number ops card.metrics.full_test_top1 ≡ some top1)
      × (ops.lt top1 card.refuse_to_start_threshold ≡ false)

  Passes-accuracy :
      (card : ModelCard N) → Passes (validate_accuracy_threshold ops card) (λ a. IsAccurate card)
  unfolding validate_accuracy_threshold
  Passes-accuracy card = record {
    value = λ a h. compare (as_number ops card.metrics.full_test_top1) refl a h;
  }
    where
      compare :
          (m : Option N)
          → as_number ops card.metrics.full_test_top1 ≡ m
          → (a : Unit)
          → ((elim m [
            | none ↦ err type_error
            | some n ↦ ok (ops.lt n card.refuse_to_start_threshold)
          ])
              >>= λ below. refuse_if below classifier_validation_error)
            ≡ ok a
          → IsAccurate card
      compare none e a h = grind arith
      compare (some n) e a h =
          (n, e, (Passes-refuse_if (ops.lt n card.refuse_to_start_threshold) _).value a h)

module _ {N S : Type 0} (hash : Hash S) where
  -- The classifier is there, and its digest is the one on the card.
  abbrev pub IsIntact : Option Bytes → ModelCard N → Type 0
  IsIntact classifier card =
      (content : Bytes) × (classifier ≡ some content)
      × (card.artifact.sha256 ≡ Json.str (hash.hexdigest (hash.update hash.new content)))

module _ {N S : Type 0} (hash : Hash S) (law : IsIncremental hash) where
  Passes-compare :
      (digest : Option String) (expected : Json N)
      → Passes
          (compare_checksum digest expected)
          (λ a. (s : String) × (digest ≡ some s) × (expected ≡ Json.str s))
  Passes-compare none expected = Passes-err _
  Passes-compare (some s) expected = record {
    value = λ a h. (
      s,
      refl,
      is_string-str s expected
          (not-false _ ((Passes-refuse_if (not (is_string s expected)) _).value a h)),
    );
  }

  Passes-checksum :
      (classifier : Option Bytes) (card : ModelCard N)
      → Passes
          (validate_classifier_checksum hash classifier card)
          (λ a. IsIntact hash classifier card)
  unfolding validate_classifier_checksum
  Passes-checksum none card = Passes-err _
  Passes-checksum (some content) card = record {
    value = λ a h.
        let (s, digest, same) =
          (Passes-compare (sha256_of_file hash content) card.artifact.sha256).value a h in
        let s-whole = some-equal (sym digest ∙ sha256_of_file-whole hash law content) in
        (content, refl, same ∙ ap Json.str s-whole);
  }
    where
      some-equal : {a b : String} → Path (Option String) (some a) (some b) → a ≡ b
      some-equal h = grind arith

  -- If `validate_all` returns a card, then its backbone is a supported architecture, it declares 16
  -- classes, and its classes are the 16 labels of RVL-CDIP in their order; the classifier's file is
  -- there, and the SHA-256 of its whole content, however it was read, is the one on the card; and the
  -- accuracy on the card is a number that is not below the card's threshold. Hashing in chunks is
  -- assumed to be hashing their concatenation.
  pub validate_all-accepts :
      (ops : Numbers N) (files : Assets N) (card : ModelCard N)
      → validate_all ops hash files ≡ ok card
      → IsCard ops card × IsIntact hash files.classifier card × IsAccurate ops card
  unfolding validate_all
  validate_all-accepts ops files card h =
      (Passes-bind (Passes-load ops files.model_card) (λ c valid.
          Passes-bind (Passes-checksum files.classifier c) (λ _ intact.
            Passes-bind (Passes-accuracy ops c) (λ _ accurate.
              Passes-ok
                {Q = λ x. IsCard ops x × IsIntact hash files.classifier x × IsAccurate ops x} c
                (valid, intact, accurate))))).value
        card h
