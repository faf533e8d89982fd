-- ===== src/Invariants/Histories/Records.antt =====
-- What no request rewrites: the tables keep their old records under the newer ones.
use document_classifier_week.Prelude.{
  refl, ℕ, String, Bool, Option, List, map, Extends, Extends-refl, Extends-cons, map-rewrite, ◌==◌,
  nat_eq,
}
use document_classifier_week.Models.{
  Db, Uuid, Time, Float, Prediction, Document, RoleAssignment, Change, apply, as_revoked, as_stored,
  as_queued, as_relabelled, is_active_of,
}
use document_classifier_week.Session.{Outside, World}
use document_classifier_week.Invariants.Sound.{IsSound, IsStable}
use document_classifier_week.Invariants.Requests.{Request, serve, serve-saved}

-- what the model has said of a document
abbrev pub model_output :
    Prediction → Uuid × Uuid × Uuid × String × Float × List (String × Float) × Bool
model_output p = (
  p.id, p.document_id, p.model_metadata_id, p.predicted_class, p.top1_confidence, p.class_scores,
  p.review_eligible,
)

predictions-keep :
    (base : List (Uuid × Uuid × Uuid × String × Float × List (String × Float) × Bool)) (c : Change)
    → IsSound c
    → (db : Db) → Extends base (map model_output db.predictions)
    → Extends base (map model_output (apply c db).predictions)
unfolding apply
predictions-keep base (Change.add_prediction p) s db h = Extends-cons base (model_output p) h
predictions-keep base (Change.relabel id label user_id t) s db h =
    rw
      (map-rewrite model_output (λ p. p.id == id) (as_relabelled label user_id t) (λ p. refl)
        db.predictions)
      h
predictions-keep base _ s db h = h

predictions-IsStable :
    (base : List (Uuid × Uuid × Uuid × String × Float × List (String × Float) × Bool))
    → IsStable (λ db. Extends base (map model_output db.predictions))
predictions-IsStable base = record { keep = predictions-keep base }

-- Whatever requests are served, the committed predictions keep what the model has said (class,
-- confidence, scores, eligibility, document and model) in their order, with newer predictions in
-- front: a review changes only the review label, its author and its time.
pub serve-predictions :
    (o : Outside) (requests : List Request) (w : World)
    → Extends
        (map model_output w.saved.predictions)
        (map model_output (serve o requests w).saved.predictions)
serve-predictions o requests w =
    serve-saved o (predictions-IsStable (map model_output w.saved.predictions)) requests w
      (Extends-refl (map model_output w.saved.predictions))

-- a document's origin
abbrev pub origin : Document → Uuid × Uuid × String × String × ℕ × String
origin d =
    (d.id, d.batch_id, d.source_path, d.source_filename, d.source_size_bytes, d.source_checksum)

documents-keep :
    (base : List (Uuid × Uuid × String × String × ℕ × String)) (c : Change)
    → IsSound c
    → (db : Db) → Extends base (map origin db.documents)
    → Extends base (map origin (apply c db).documents)
unfolding apply
documents-keep base (Change.add_document d) s db h = Extends-cons base (origin d) h
documents-keep base (Change.store_document id bucket key) s db h =
    rw (map-rewrite origin (λ d. d.id == id) (as_stored bucket key) (λ d. refl) db.documents) h
documents-keep base (Change.queue_document id) s db h =
    rw (map-rewrite origin (λ d. d.id == id) as_queued (λ d. refl) db.documents) h
documents-keep base _ s db h = h

documents-IsStable :
    (base : List (Uuid × Uuid × String × String × ℕ × String))
    → IsStable (λ db. Extends base (map origin db.documents))
documents-IsStable base = record { keep = documents-keep base }

-- Whatever requests are served, the committed documents keep their origin (batch, path, file name,
-- size and checksum) in their order, with newer documents in front.
pub serve-documents :
    (o : Outside) (requests : List Request) (w : World)
    → Extends (map origin w.saved.documents) (map origin (serve o requests w).saved.documents)
serve-documents o requests w =
    serve-saved o (documents-IsStable (map origin w.saved.documents)) requests w
      (Extends-refl (map origin w.saved.documents))

-- a grant of a role, whether it is revoked or not
abbrev pub grant_of : RoleAssignment → Uuid × Uuid × String × Option Uuid × Time
grant_of r = (r.id, r.user_id, r.role, r.assigned_by_user_id, r.assigned_at)

role_assignments-keep :
    (base : List (Uuid × Uuid × String × Option Uuid × Time)) (c : Change)
    → IsSound c
    → (db : Db) → Extends base (map grant_of db.role_assignments)
    → Extends base (map grant_of (apply c db).role_assignments)
unfolding apply
role_assignments-keep base (Change.add_role r) s db h = Extends-cons base (grant_of r) h
role_assignments-keep base (Change.revoke_role id t) s db h =
    rw (map-rewrite grant_of (λ r. r.id == id) (as_revoked t) (λ r. refl) db.role_assignments) h
role_assignments-keep base (Change.revoke_roles_of user_id t) s db h =
    rw (map-rewrite grant_of (is_active_of user_id) (as_revoked t) (λ r. refl) db.role_assignments)
      h
role_assignments-keep base _ s db h = h

role_assignments-IsStable :
    (base : List (Uuid × Uuid × String × Option Uuid × Time))
    → IsStable (λ db. Extends base (map grant_of db.role_assignments))
role_assignments-IsStable base = record { keep = role_assignments-keep base }

-- Whatever requests are served, the committed grants of roles keep who granted what to whom and when,
-- with newer grants in front: a revocation deletes nothing.
pub serve-role_assignments :
    (o : Outside) (requests : List Request) (w : World)
    → Extends
        (map grant_of w.saved.role_assignments)
        (map grant_of (serve o requests w).saved.role_assignments)
serve-role_assignments o requests w =
    serve-saved o (role_assignments-IsStable (map grant_of w.saved.role_assignments)) requests w
      (Extends-refl (map grant_of w.saved.role_assignments))
