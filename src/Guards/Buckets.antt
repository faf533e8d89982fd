-- ===== src/Guards/Buckets.antt =====
-- The buckets after the bootstrap at start-up.
use document_classifier_week.Prelude.{
  or_true, ℕ, ◌≡◌, refl, sym, ◌∙◌, ap, subst, arith, String, Bool, true, false, not, ◌||◌, ◌⊎◌, inl,
  inr, List, [], ◌∷◌, ◌++◌, ◌==◌, string_eq, contains, Extends, Extends-refl, Extends-cons,
}
use document_classifier_week.Session.{Outside, World, BucketAnswer, ok, step, when}
use document_classifier_week.Session.Ensures.{Ensures, Ensures-pure, Ensures-bind}
use document_classifier_week.Minio.{
  originals_bucket, overlays_bucket, bucket_exists, make_bucket, ensure_bucket,
  ensure_buckets_exist,
}

module _ (o : Outside) where
  -- the server has said that the bucket exists, or has made it
  abbrev pub IsThere : String → World → Type 0
  IsThere bucket v =
      ((t : ℕ) × (o.bucket_exists t bucket ≡ BucketAnswer.exists true))
      ⊎ (contains bucket v.buckets ≡ true)

  Ensures-bucket_exists :
      (bucket : String) (w : World)
      → Ensures w
          (bucket_exists o bucket)
          (λ b v. (o.bucket_exists w.tick bucket ≡ BucketAnswer.exists b) × (v ≡ step w))
  unfolding bucket_exists
  Ensures-bucket_exists bucket w = record { at = λ b v h. ground arith }

  Ensures-make_bucket :
      (bucket : String) (w : World)
      → Ensures w
          (make_bucket o bucket)
          (λ a v. v ≡ record (step w) { buckets = bucket ∷ w.buckets })
  unfolding make_bucket
  Ensures-make_bucket bucket w = record { at = λ a v h. ground arith }

  newest-contained : (bucket : String) (rest : List String) → contains bucket (bucket ∷ rest) ≡ true
  newest-contained bucket rest = rw ((string_eq.test_iff bucket bucket).1 refl) refl

  -- the bucket is there, and the buckets that were made before are kept
  abbrev IsEnsured : String → World → World → Type 0
  IsEnsured bucket w v = IsThere bucket v × Extends w.buckets v.buckets

  Ensures-ensure_bucket :
      (bucket : String) (w : World)
      → Ensures w (ensure_bucket o bucket) (λ a v. IsEnsured bucket w v)
  unfolding ensure_bucket
  Ensures-ensure_bucket bucket w =
      Ensures-bind (Ensures-bucket_exists bucket w) (λ b w1 (said, e1). made b w1 said e1)
    where
      made :
          (b : Bool) (w1 : World)
          → o.bucket_exists w.tick bucket ≡ BucketAnswer.exists b
          → w1 ≡ step w
          → Ensures w1 (when (not b) (make_bucket o bucket)) (λ a v. IsEnsured bucket w v)
      made true w1 said e1 = Ensures-pure tt w1 (
        inl (w.tick, said),
        subst (λ x. Extends w.buckets x.buckets) (sym e1) (Extends-refl w.buckets),
      )
      made false w1 said e1 = record {
        at = λ a v h.
            let same =
              (Ensures-make_bucket bucket w1).at a v h
              ∙ ap (λ x. record (step x) { buckets = bucket ∷ x.buckets }) e1 in
            subst (IsEnsured bucket w) (sym same) (
              inr (newest-contained bucket w.buckets),
              Extends-cons w.buckets bucket (Extends-refl w.buckets),
            );
      }

  contains-append :
      (x : String) (newer base : List String)
      → contains x base ≡ true
      → contains x (newer ++ base) ≡ true
  contains-append x [] base h = h
  contains-append x (y ∷ newer) base h =
      ap (λ b. x == y || b) (contains-append x newer base h) ∙ or_true (x == y)

  IsThere-Extends :
      (bucket : String) (w v : World)
      → Extends w.buckets v.buckets
      → IsThere bucket w
      → IsThere bucket v
  IsThere-Extends bucket w v more (inl said) = inl said
  IsThere-Extends bucket w v (newer, e) (inr made) =
      inr (ap (contains bucket) e ∙ contains-append bucket newer w.buckets made)

  Ensures-ensure_buckets_exist :
      (w : World)
      → Ensures w
          (ensure_buckets_exist o)
          (λ a v. IsThere originals_bucket v × IsThere overlays_bucket v)
  unfolding ensure_buckets_exist
  Ensures-ensure_buckets_exist w =
      Ensures-bind (Ensures-ensure_bucket originals_bucket w) (λ _ w1 (first, _). record {
        at = λ a v h.
            let (second, more) = (Ensures-ensure_bucket overlays_bucket w1).at a v h in
            (IsThere-Extends originals_bucket w1 v more first, second);
      })

  -- If the bootstrap of the buckets returns, then each of the two buckets, for the originals and for
  -- the overlays, is there: the server has said that it exists, or has made it.
  pub ensure_buckets_exist-IsThere :
      (w : World) (a : Unit) (v : World)
      → ensure_buckets_exist o w ≡ (ok a, v)
      → IsThere originals_bucket v × IsThere overlays_bucket v
  ensure_buckets_exist-IsThere w a v h = (Ensures-ensure_buckets_exist w).at a v h
