-- ===== src/Transactions/Services.antt =====
-- The services that end with one commit: if they raise, the committed tables are what they were.
use document_classifier_week.Prelude.{◌≡◌, String, Bool, Option, none, some, List}
use document_classifier_week.Models.{Uuid, Bytes, Float, JobStatus, RoleAssignment, Prediction}
use document_classifier_week.Session.{Outside, Error, World, err}
use document_classifier_week.Cache.Effects.{
  user_roles-IsHarmless, after_relabel-IsHarmless, after_classification-IsHarmless,
  batch_list-IsHarmless,
}
use document_classifier_week.RoleManagement.{
  assign_role, grant, revoke_target, revoke_role, replace_roles,
}
use document_classifier_week.PredictionReview.{relabel, check_and_apply, apply_label}
use document_classifier_week.ClassificationJobs.{persist_result, mark_failure}
use document_classifier_week.Ingestion.{ingest_file}
use document_classifier_week.Repositories.Roles
use document_classifier_week.Repositories.Predictions
use document_classifier_week.Authorization
use document_classifier_week.Transactions.Atomic.{
  IsAtomic, IsTotal-pure, IsTotal-or_warn, IsTotal-bind, IsAtomic-quiet, IsAtomic-if, IsAtomic-bind,
  IsAtomic-last, IsAtomic-commit,
}
use document_classifier_week.Transactions.Quiet.{
  quiet, Quiet-record, Quiet-require_admin, Quiet-validate_role, Quiet-validate_roles,
  Quiet-new_assignment, Quiet-create_role, Quiet-assign, Quiet-assign_each, Quiet-audit_change,
  Quiet-has_active_role, Quiet-revoke_all, Quiet-revoke, Quiet-require_prediction,
  Quiet-cache_batch_id, Quiet-require_job, Quiet-create_prediction, Quiet-finish_job,
  Quiet-create_document, Quiet-store_and_enqueue,
}

-- how a service is built, its last part after the commit included
ruleset atomic = (
  IsAtomic-if, IsAtomic-bind, IsAtomic-last, IsAtomic-quiet, IsTotal-pure, IsTotal-or_warn,
  IsTotal-bind, IsAtomic-commit, quiet,
)

module _ (o : Outside) where
  IsAtomic-grant :
      (user : Uuid) (role : String) (admin : Uuid) (request_id : Option String)
      → IsAtomic (grant o user role admin request_id)
  unfolding grant
  IsAtomic-grant user role admin request_id =
      search
        (
          atomic,
          Quiet-new_assignment o,
          Quiet-create_role o,
          Quiet-assign o,
          Quiet-audit_change o,
          user_roles-IsHarmless o,
        )
        depth 12

  IsAtomic-assign_role :
      (user : Uuid) (role : String) (admin : Uuid) (request_id : Option String)
      → IsAtomic (assign_role o user role admin request_id)
  unfolding assign_role
  IsAtomic-assign_role user role admin request_id =
      search
        (
          atomic,
          Quiet-require_admin o,
          Quiet-validate_role o,
          Quiet-has_active_role o,
          Quiet-assign o,
          IsAtomic-grant,
        )
        depth 12

  IsAtomic-revoke_target :
      (t : Option RoleAssignment) (user : Uuid) (role : String) (admin : Uuid)
      (request_id : Option String)
      → IsAtomic (revoke_target o t user role admin request_id)
  unfolding revoke_target Authorization.remove_role
  IsAtomic-revoke_target none user role admin request_id = search atomic
  IsAtomic-revoke_target (some t) user role admin request_id =
      search (atomic, Quiet-revoke o, Quiet-audit_change o, user_roles-IsHarmless o) depth 12

  IsAtomic-revoke_role :
      (user : Uuid) (role : String) (admin : Uuid) (request_id : Option String)
      → IsAtomic (revoke_role o user role admin request_id)
  unfolding revoke_role Roles.get_active_roles
  IsAtomic-revoke_role user role admin request_id =
      search (atomic, Quiet-require_admin o, Quiet-validate_role o, IsAtomic-revoke_target) depth 12

  IsAtomic-replace_roles :
      (user : Uuid) (roles : List String) (admin : Uuid) (request_id : Option String)
      → IsAtomic (replace_roles o user roles admin request_id)
  unfolding replace_roles Authorization.remove_roles_for_user
  IsAtomic-replace_roles user roles admin request_id =
      search
        (
          atomic,
          Quiet-require_admin o,
          Quiet-validate_roles o,
          Quiet-revoke_all o,
          Quiet-assign_each o,
          Quiet-audit_change o,
          user_roles-IsHarmless o,
        )
        depth 14

  IsAtomic-apply_label :
      (id : Uuid) (p : Prediction) (label : String) (reviewer : Uuid) (b : Option Uuid)
      (request_id : Option String)
      → IsAtomic (apply_label o id p label reviewer b request_id)
  unfolding apply_label
  IsAtomic-apply_label id p label reviewer b request_id =
      search (atomic, Quiet-record o, Quiet-cache_batch_id o, after_relabel-IsHarmless o) depth 14

  IsAtomic-relabel :
      (id : Uuid) (label : String) (reviewer : Uuid) (b : Option Uuid) (request_id : Option String)
      → IsAtomic (relabel o id label reviewer b request_id)
  unfolding relabel check_and_apply Predictions.get_by_id Authorization.require_permission
  IsAtomic-relabel id label reviewer b request_id =
      search (atomic, Quiet-require_prediction o, IsAtomic-apply_label) depth 14

  IsAtomic-persist_result :
      (job doc meta : Uuid) (class : String) (confidence : Float) (scores : List (String × Float))
      (bucket key : String) (batch : Uuid)
      → IsAtomic (persist_result o job doc meta class confidence scores bucket key batch)
  unfolding persist_result
  IsAtomic-persist_result job doc meta class confidence scores bucket key batch =
      search
        (atomic, Quiet-create_prediction o, Quiet-finish_job o, after_classification-IsHarmless o)
        depth 14

  IsAtomic-mark_failure :
      (status : JobStatus) (retryable : Bool) (job : Uuid) (error : String)
      → IsAtomic (mark_failure o status retryable job error)
  unfolding mark_failure
  IsAtomic-mark_failure status retryable job error =
      search (atomic, Quiet-require_job o, Quiet-record o) depth 14

  IsAtomic-ingest_file :
      (path name : String) (content : Bytes) (meta : Uuid) (request_id : Option String)
      → IsAtomic (ingest_file o path name content meta request_id)
  unfolding ingest_file
  IsAtomic-ingest_file path name content meta request_id =
      search
        (
          atomic,
          Quiet-create_document o,
          Quiet-store_and_enqueue o,
          Quiet-record o,
          batch_list-IsHarmless o,
        )
        depth 14

  -- If `assign_role` raises, whatever the error, the committed tables are unchanged.
  pub assign_role-raises :
      (user : Uuid) (role : String) (admin : Uuid) (request_id : Option String) (w : World)
      (e : Error)
      → (assign_role o user role admin request_id w).0 ≡ err e
      → (assign_role o user role admin request_id w).1.saved ≡ w.saved
  assign_role-raises user role admin request_id w e h =
      (IsAtomic-assign_role user role admin request_id).at w e h

  -- If `revoke_role` raises, whatever the error, the committed tables are unchanged.
  pub revoke_role-raises :
      (user : Uuid) (role : String) (admin : Uuid) (request_id : Option String) (w : World)
      (e : Error)
      → (revoke_role o user role admin request_id w).0 ≡ err e
      → (revoke_role o user role admin request_id w).1.saved ≡ w.saved
  revoke_role-raises user role admin request_id w e h =
      (IsAtomic-revoke_role user role admin request_id).at w e h

  -- If `replace_roles` raises, even in the middle of its list, the committed tables of the session are
  -- unchanged, so that the old role assignments stay. This says nothing of Casbin's own table, which
  -- the enforcer writes at once and no rollback undoes.
  pub replace_roles-raises :
      (user : Uuid) (roles : List String) (admin : Uuid) (request_id : Option String) (w : World)
      (e : Error)
      → (replace_roles o user roles admin request_id w).0 ≡ err e
      → (replace_roles o user roles admin request_id w).1.saved ≡ w.saved
  replace_roles-raises user roles admin request_id w e h =
      (IsAtomic-replace_roles user roles admin request_id).at w e h

  -- If `relabel` raises, whatever the error, the committed tables are unchanged.
  pub relabel-raises :
      (id : Uuid) (label : String) (reviewer : Uuid) (b : Option Uuid) (request_id : Option String)
      (w : World) (e : Error)
      → (relabel o id label reviewer b request_id w).0 ≡ err e
      → (relabel o id label reviewer b request_id w).1.saved ≡ w.saved
  relabel-raises id label reviewer b request_id w e h =
      (IsAtomic-relabel id label reviewer b request_id).at w e h

  -- If `persist_result` raises, neither the prediction nor its overlay nor the end of the job is
  -- committed.
  pub persist_result-raises :
      (job doc meta : Uuid) (class : String) (confidence : Float) (scores : List (String × Float))
      (bucket key : String) (batch : Uuid) (w : World) (e : Error)
      → (persist_result o job doc meta class confidence scores bucket key batch w).0 ≡ err e
      → (persist_result o job doc meta class confidence scores bucket key batch w).1.saved ≡ w.saved
  persist_result-raises job doc meta class confidence scores bucket key batch w e h =
      (IsAtomic-persist_result job doc meta class confidence scores bucket key batch).at w e h

  -- If `ingest_file` raises, neither a batch nor a document nor a job is committed.
  pub ingest_file-raises :
      (path name : String) (content : Bytes) (meta : Uuid) (request_id : Option String) (w : World)
      (e : Error)
      → (ingest_file o path name content meta request_id w).0 ≡ err e
      → (ingest_file o path name content meta request_id w).1.saved ≡ w.saved
  ingest_file-raises path name content meta request_id w e h =
      (IsAtomic-ingest_file path name content meta request_id).at w e h
