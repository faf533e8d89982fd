-- ===== src/Guards/Routes/Recent.antt =====
-- The list of recent predictions.
use document_classifier_week.Prelude.{
  ℕ, ◌+◌, ◌≤◌, ◌≡◌, refl, ◌∙◌, ap, subst, Bool, true, false, ◌||◌, Option, none, some, List, [],
  ◌∷◌, ◌==◌, nat_eq, ltb, length, select, take, drop, All, IsReordering, length-take_le, All-take,
  All-drop, All-reordered,
}
use document_classifier_week.Models.{Uuid, Prediction, OverlayAsset, Db}
use document_classifier_week.Session.{Outside, World, ok}
use document_classifier_week.Session.Ensures.{
  Ensures, Ensures-pure, Ensures-bind, Ensures-guard, Ensures-rows_at, Ensures-one_row,
}
use document_classifier_week.Repositories.Documents
use document_classifier_week.Repositories.Predictions
use document_classifier_week.Api.Predictions.{
  PredictionRead, prediction_to_read, read_with_overlay, read_each, recent, list_recent_predictions,
}
use document_classifier_week.Guards.Routes.Reviews.{Ensures-permission}
use document_classifier_week.Guards.Routes.Pages.{limit_bounds}

-- the read model shows this prediction
abbrev pub Shows : Prediction → PredictionRead → Type 0
Shows p read =
    (read.id ≡ p.id)
    × (read.document_id ≡ p.document_id)
    × (read.predicted_class ≡ p.predicted_class)
    × (read.review_eligible ≡ p.review_eligible)
    × (read.review_label ≡ p.review_label)

abbrev pub AllShow : List Prediction → List PredictionRead → Type 0
AllShow [] [] = Unit
AllShow [] (r ∷ reads) = ⊥
AllShow (p ∷ ps) [] = ⊥
AllShow (p ∷ ps) (r ∷ reads) = Shows p r × AllShow ps reads

module _ (o : Outside) where
  Ensures-to_read :
      (p : Prediction) (overlay : Option OverlayAsset) (w : World)
      → Ensures w (prediction_to_read o p overlay) (λ r v. Shows p r)
  unfolding prediction_to_read Documents.get_by_id
  Ensures-to_read p overlay w =
      Ensures-bind (Ensures-one_row o (λ db. select (λ d. d.id == p.document_id) db.documents) w)
        (λ d u found. Ensures-pure _ u (refl, refl, refl, refl, refl))

  Ensures-read_with_overlay :
      (p : Prediction) (w : World) → Ensures w (read_with_overlay o p) (λ r v. Shows p r)
  unfolding read_with_overlay Predictions.get_overlay_by_prediction
  Ensures-read_with_overlay p w =
      Ensures-bind
        (Ensures-one_row o (λ db. select (λ a. a.prediction_id == p.id) db.overlay_assets) w)
        (λ overlay u found. Ensures-to_read p overlay u)

  Ensures-read_each :
      (ps : List Prediction) (w : World) → Ensures w (read_each o ps) (λ rs v. AllShow ps rs)
  unfolding read_each
  Ensures-read_each [] w = Ensures-pure [] w tt
  Ensures-read_each (p ∷ ps) w = Ensures-bind (Ensures-read_with_overlay p w) (λ r u shown.
      Ensures-bind (Ensures-read_each ps u) (λ rs v rest. Ensures-pure (r ∷ rs) v (shown, rest)))

-- what a filter on `review_eligible` asks of a prediction: only `true` filters
abbrev pub IsAsked : Option Bool → Prediction → Type 0
IsAsked (some true) p = p.review_eligible ≡ true
IsAsked _ p = Unit

-- the rows that the filter leaves
abbrev pub asked_rows : Option Bool → Db → List Prediction
asked_rows (some true) db = select (λ p. p.review_eligible) db.predictions
asked_rows _ db = db.predictions

-- the page of these rows
abbrev pub asked_page : Outside → ℕ → Option Bool → ℕ → ℕ → Db → List Prediction
asked_page o t eligible limit offset db =
    take limit (drop offset (o.newest_predictions t (asked_rows eligible db)))

All-unit : {A : Type 0} (xs : List A) → All {0, 0} (λ x. Unit) xs
All-unit [] = tt
All-unit (x ∷ xs) = (tt, All-unit xs)

asked_page-IsAsked :
    (o : Outside) (t : ℕ) (eligible : Option Bool) (limit offset : ℕ) (db : Db)
    → IsReordering (o.newest_predictions t)
    → All (IsAsked eligible) (asked_page o t eligible limit offset db)
asked_page-IsAsked o t (some true) limit offset db reorders =
    All-take _ limit _
      (All-drop _ offset _ (All-reordered (o.newest_predictions t) _ db.predictions reorders))
asked_page-IsAsked o t (some false) limit offset db reorders = All-unit _
asked_page-IsAsked o t none limit offset db reorders = All-unit _

module _ (o : Outside) where
  Ensures-recent :
      (eligible : Option Bool) (limit offset : ℕ) (w : World)
      → Ensures w
          (recent o eligible limit offset)
          (λ ps v. ps ≡ asked_page o w.tick eligible limit offset w.db)
  unfolding recent Predictions.list_review_eligible Predictions.list_recent
  Ensures-recent (some true) limit offset w = record {
    at = λ ps v h.
        ((Ensures-rows_at o (λ t. asked_page o t (some true) limit offset) w).at ps v h).0;
  }
  Ensures-recent (some false) limit offset w = record {
    at = λ ps v h. ((Ensures-rows_at o (λ t. asked_page o t none limit offset) w).at ps v h).0;
  }
  Ensures-recent none limit offset w = record {
    at = λ ps v h. ((Ensures-rows_at o (λ t. asked_page o t none limit offset) w).at ps v h).0;
  }

-- the answer shows the predictions of a page of at most `limit`, which meet the filter
abbrev pub IsPage : Outside → ℕ → Option Bool → ℕ → ℕ → Db → List PredictionRead → Type 0
IsPage o t eligible limit offset db reads =
    (length (asked_page o t eligible limit offset db) ≤ limit)
    × All (IsAsked eligible) (asked_page o t eligible limit offset db)
    × AllShow (asked_page o t eligible limit offset db) reads

module _ (o : Outside) where
  Ensures-list_recent :
      (user : Uuid) (eligible : Option Bool) (limit offset : ℕ) (w : World)
      → ((t : ℕ) → IsReordering (o.newest_predictions t))
      → Ensures w (list_recent_predictions o user eligible limit offset) (λ reads v.
        (1 ≤ limit) × (limit ≤ 100) × IsPage o (w.tick + 1) eligible limit offset w.db reads)
  unfolding list_recent_predictions
  Ensures-list_recent user eligible limit offset w reorders =
      Ensures-bind (Ensures-permission o user "predictions" "read" w) (λ _ w1 (_, _, e1).
        Ensures-guard (ltb limit 1 || ltb 100 limit) _ _ (λ bounds.
          Ensures-bind (Ensures-recent o eligible limit offset w1) (λ ps w2 page. record {
            at = λ reads v h.
                let (low, high) = limit_bounds limit bounds in
                let here = page ∙ ap (λ x. asked_page o x.tick eligible limit offset x.db) e1 in
                (
                  low,
                  high,
                  (
                    length-take_le limit _,
                    asked_page-IsAsked o (w.tick + 1) eligible limit offset w.db
                        (reorders (w.tick + 1)),
                    subst (λ rows. AllShow rows reads) here
                        ((Ensures-read_each o ps w2).at reads v h),
                  ),
                );
          })))

  -- If `ORDER BY` only reorders the rows of the predictions, in any way each time, and `list_recent_predictions` answers, then the
  -- limit is between 1 and 100, and the answer shows one after the other the predictions of the page at
  -- the offset, at most as many as the limit, which are all eligible for review if the request asks
  -- for these.
  pub list_recent-IsPage :
      (user : Uuid) (eligible : Option Bool) (limit offset : ℕ) (w : World)
      (reads : List PredictionRead) (v : World)
      → ((t : ℕ) → IsReordering (o.newest_predictions t))
      → list_recent_predictions o user eligible limit offset w ≡ (ok reads, v)
      → (1 ≤ limit) × (limit ≤ 100) × IsPage o (w.tick + 1) eligible limit offset w.db reads
  list_recent-IsPage user eligible limit offset w reads v reorders h =
      (Ensures-list_recent user eligible limit offset w reorders).at reads v h
