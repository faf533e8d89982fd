-- ===== src/Guards/Reviews.antt =====
-- What a relabeling that returned has checked and done.
use document_classifier_week.Prelude.{
  ◌≡◌, refl, sym, ◌∙◌, ap, String, Bool, true, false, not, ◌&&◌, Option, none, some, [], ◌∷◌, ◌==◌,
  nat_eq, string_eq, not-false, ◌⊎◌, inl, inr, arith, str, contains, select,
}
use document_classifier_week.Models.{
  Uuid, Time, Db, Change, apply, Prediction, Document, Details, AuditEvent, as_relabelled,
}
use document_classifier_week.Session.{Outside, World, ok, step}
use document_classifier_week.Session.Ensures.{
  Ensures, Ensures-pure, Ensures-raise, Ensures-bind, Ensures-guard, Ensures-write,
  Ensures-statement, Ensures-now, Ensures-commit, Ensures-one_row, to_list,
}
use document_classifier_week.Repositories.Documents
use document_classifier_week.Repositories.Predictions
use document_classifier_week.Authorization.{enforce}
use document_classifier_week.Cache.Effects.{after_relabel-IsHarmless}
use document_classifier_week.PredictionReview.{
  rvl_cdip_classes, require_prediction, batch_of, cache_batch_id, apply_label, check_and_apply,
  relabel,
}
use document_classifier_week.Guards.Steps.{
  Ensures-can, Ensures-require_permission, Ensures-record, Ensures-or_warn,
}

module _ (o : Outside) where
  Ensures-batch_of : (d : Option Document) (w : World) → Ensures w (batch_of o d) (λ c v. v ≡ w)
  unfolding batch_of
  Ensures-batch_of none w = Ensures-raise _ w
  Ensures-batch_of (some d) w = Ensures-pure d.batch_id w refl

  Ensures-cache_batch_id :
      (b : Option Uuid) (p : Prediction) (w : World)
      → Ensures w (cache_batch_id o b p) (λ c v. v.db ≡ w.db)
  unfolding cache_batch_id Documents.get_by_id
  Ensures-cache_batch_id (some b) p w = Ensures-pure b w refl
  Ensures-cache_batch_id none p w =
      Ensures-bind (Ensures-one_row o (λ db. select (λ d. d.id == p.document_id) db.documents) w)
        (λ d u (stepped, found). record {
          at = λ c v h. ap (λ x. x.db) ((Ensures-batch_of d u).at c v h ∙ stepped);
        })

-- the event of a relabeling
abbrev pub relabeled : Uuid → Prediction → String → Uuid → Option String → AuditEvent
relabeled id p label reviewer request_id = record {
  actor_user_id = some reviewer;
  action = "prediction.relabeled";
  target_type = some "prediction";
  target_id = some (str id);
  outcome = "success";
  details = some (Details.relabel p.predicted_class label p.top1_confidence);
  request_id = request_id;
}

-- the tables after a relabeling of `p` at `t`
abbrev pub after_relabel : Uuid → Prediction → String → Uuid → Option String → Time → Db → Db
after_relabel id p label reviewer request_id t db =
    apply (Change.add_audit (relabeled id p label reviewer request_id))
      (apply (Change.relabel p.id label reviewer t) db)

module _ (o : Outside) where
  Ensures-apply_label :
      (id : Uuid) (p : Prediction) (label : String) (reviewer : Uuid) (b : Option Uuid)
      (request_id : Option String) (w : World)
      → Ensures w (apply_label o id p label reviewer b request_id) (λ q v.
        (t : Time) × (q ≡ as_relabelled label reviewer t p)
        × (v.saved ≡ after_relabel id p label reviewer request_id t w.db))
  unfolding apply_label
  Ensures-apply_label id p label reviewer b request_id w =
      Ensures-bind (Ensures-now o w) (λ t w1 e1.
        Ensures-bind (Ensures-write (Change.relabel p.id label reviewer t) w1) (λ _ w2 e2.
          Ensures-bind (Ensures-statement o w2) (λ _ w3 e3.
            Ensures-bind (Ensures-record o _ _ _ _ _ _ _ w3) (λ _ w4 e4.
              Ensures-bind (Ensures-cache_batch_id o b p w4) (λ c w5 e5.
                Ensures-bind (Ensures-commit o w5) (λ _ w6 e6.
                  Ensures-bind (Ensures-or_warn o _ (after_relabel-IsHarmless o c id) w6)
                    (λ _ w7 e7.
                      Ensures-pure _ w7 (t, refl, e7 ∙ rw (e6, e5, e4, e3, e2, e1) refl))))))))

  Ensures-require_prediction :
      (r : Option Prediction) (w : World)
      → Ensures w (require_prediction o r) (λ p v. (r ≡ some p) × (v ≡ w))
  unfolding require_prediction
  Ensures-require_prediction none w = Ensures-raise _ w
  Ensures-require_prediction (some p) w = Ensures-pure p w (refl, refl)

may_bypass : (b eligible : Bool) → (not b && not eligible) ≡ false → (eligible ≡ true) ⊎ (b ≡ true)
may_bypass true eligible h = inr refl
may_bypass false true h = inl refl
may_bypass false false h = grind arith

or_manages : {A : Type 0} {b m : Bool} → b ≡ m → A ⊎ (b ≡ true) → A ⊎ (m ≡ true)
or_manages e (inl a) = inl a
or_manages e (inr h) = inr (sym e ∙ h)

-- What a relabeling to `q`, with the committed tables `db'`, has found, checked and done.
abbrev pub IsReviewed :
    Outside → Uuid → String → Uuid → Option String → World → Prediction → Db → Type 0
IsReviewed o id label reviewer request_id w q db' =
    (p : Prediction) × (t : Time) × (select (λ p. p.id == id) w.db.predictions ≡ p ∷ [])
    × (enforce o w.policies (str reviewer) "predictions" "relabel" ≡ true)
    × ((p.review_eligible ≡ true) ⊎ (enforce o w.policies (str reviewer) "roles" "manage" ≡ true))
    × (contains label rvl_cdip_classes ≡ true)
    × (q ≡ as_relabelled label reviewer t p)
    × (db' ≡ after_relabel id p label reviewer request_id t w.db)

module _ (o : Outside) where
  Ensures-relabel :
      (id : Uuid) (label : String) (reviewer : Uuid) (b : Option Uuid) (request_id : Option String)
      (w : World)
      → Ensures w
          (relabel o id label reviewer b request_id)
          (λ q v. IsReviewed o id (o.strip_lower label) reviewer request_id w q v.saved)
  unfolding relabel check_and_apply Predictions.get_by_id
  Ensures-relabel id label reviewer b request_id w =
      Ensures-bind (Ensures-one_row o (λ db. select (λ p. p.id == id) db.predictions) w)
        (λ r w1 (e1, found). Ensures-bind (Ensures-require_prediction o r w1) (λ p w2 (some_p, e2).
          Ensures-bind (Ensures-require_permission o reviewer "predictions" "relabel" w2)
            (λ _ w3 (allowed, e3).
              Ensures-bind (Ensures-can o reviewer "roles" "manage" w3) (λ bypass w4 (asked, e4).
                Ensures-guard (not bypass && not p.review_eligible) _ _ (λ gate.
                  Ensures-guard (not (contains (o.strip_lower label) rvl_cdip_classes)) _ _
                    (λ taxonomy. record {
                      at = λ q v h.
                          let (t, relabelled, saved) =
                            (Ensures-apply_label o id p (o.strip_lower label) reviewer b request_id
                                w4).at
                              q v h in
                          let permitted =
                            sym (
                              ap (λ x. enforce o x.policies (str reviewer) "predictions" "relabel")
                                (e2 ∙ e1))
                            ∙ allowed in
                          let manages =
                            asked
                            ∙ ap (λ x. enforce o x.policies (str reviewer) "roles" "manage")
                                (e3 ∙ ap step (e2 ∙ e1)) in
                          let eligible =
                            or_manages manages (may_bypass bypass p.review_eligible gate) in
                          let steps = e4 ∙ ap step (e3 ∙ ap step (e2 ∙ e1)) in
                          (
                            p,
                            t,
                            found ∙ ap to_list some_p,
                            permitted,
                            eligible,
                            not-false _ taxonomy,
                            relabelled,
                            saved
                                ∙ ap
                                    (λ x.
                                      after_relabel id p (o.strip_lower label) reviewer request_id t
                                        x.db)
                                    steps,
                          );
                    }))))))

  -- If `relabel` returns, then: exactly one prediction has the identifier; the reviewer may relabel
  -- predictions; the prediction is eligible for review or the reviewer may manage roles; the
  -- normalized label is one of the 16 classes; the result is the prediction with this label, reviewer
  -- and time; and the committed tables are those that the session saw, with that one change and one audit
  -- event.
  pub relabel-returns :
      (id : Uuid) (label : String) (reviewer : Uuid) (b : Option Uuid) (request_id : Option String)
      (w : World) (q : Prediction) (v : World)
      → relabel o id label reviewer b request_id w ≡ (ok q, v)
      → IsReviewed o id (o.strip_lower label) reviewer request_id w q v.saved
  relabel-returns id label reviewer b request_id w q v h =
      (Ensures-relabel id label reviewer b request_id w).at q v h
