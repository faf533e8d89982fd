-- ===== src/Transactions/Quiet.antt =====
-- The actions that commit nothing.
use document_classifier_week.Prelude.{ℕ, String, Option, none, some, List, [], ◌∷◌, arith}
use document_classifier_week.Models.{
  Uuid, Bytes, Float, Db, Change, RoleAssignment, Document, Prediction, ClassificationJob, Details,
}
use document_classifier_week.Session.{
  Outside, PolicyCall, write, statement, rows, rows_at, uuid4, now, for_each,
}
use document_classifier_week.Session.Keeps.{Keeps, Keeps-for_each, keeps_rules}
use document_classifier_week.Repositories.AuditEvents
use document_classifier_week.Repositories.Roles
use document_classifier_week.Repositories.Documents
use document_classifier_week.Repositories.Batches
use document_classifier_week.Repositories.Jobs
use document_classifier_week.Repositories.Predictions
use document_classifier_week.Audit.{record_event}
use document_classifier_week.Authorization
use document_classifier_week.RoleManagement.{
  require_admin, validate_role, new_assignment, audit_change, assign_each,
}
use document_classifier_week.PredictionReview.{require_prediction, batch_of, cache_batch_id}
use document_classifier_week.ClassificationJobs.{
  found_job, require_job, create_prediction, finish_job,
}
use document_classifier_week.Minio.{upload_file, upload_original}
use document_classifier_week.Ingestion.{
  validate_tiff, reject_duplicate, create_batch, upload_to_storage, enqueue_classification_job,
  create_document, store_and_enqueue,
}
use document_classifier_week.Transactions.Atomic.{IsQuiet}

pub Quiet-write : (c : Change) → IsQuiet (write c)
unfolding write
Quiet-write c s = record { at = λ w h. record { eq = h.eq } }

module _ (o : Outside) where
  pub Quiet-statement : IsQuiet (statement o)
  unfolding statement
  Quiet-statement s = record { at = λ w h. ground arith }

  pub Quiet-rows : {A : Type 0} (query : Db → List A) → IsQuiet (rows o query)
  unfolding rows
  Quiet-rows query s = record { at = λ w h. ground arith }

  pub Quiet-rows_at : {A : Type 0} (query : ℕ → Db → List A) → IsQuiet (rows_at o query)
  unfolding rows_at
  Quiet-rows_at query s = record { at = λ w h. (Quiet-rows (query w.tick) s).at w h }

  pub Quiet-uuid4 : IsQuiet (uuid4 o)
  unfolding uuid4
  Quiet-uuid4 s = record { at = λ w h. ground arith }

  pub Quiet-now : IsQuiet (now o)
  unfolding now
  Quiet-now s = record { at = λ w h. ground arith }

  pub Quiet-tell : (c : PolicyCall) → IsQuiet (Authorization.tell o c)
  unfolding Authorization.tell
  Quiet-tell c s = record { at = λ w h. ground arith }

  pub Quiet-can :
      (user_id : Uuid) (obj act : String) → IsQuiet (Authorization.can o user_id obj act)
  unfolding Authorization.can
  Quiet-can user_id obj act s = record { at = λ w h. ground arith }

  pub Quiet-upload :
      (bucket key : String) (content : Bytes) → IsQuiet (upload_file o bucket key content)
  unfolding upload_file
  Quiet-upload bucket key content s = record { at = λ w h. ground arith }

  pub Quiet-enqueue :
      (document_id meta : Uuid) → IsQuiet (enqueue_classification_job o document_id meta)
  unfolding enqueue_classification_job
  Quiet-enqueue document_id meta s = record { at = λ w h. ground arith }

pub ruleset quiet = (
  keeps_rules, Quiet-write, Quiet-statement, Quiet-rows, Quiet-rows_at, Quiet-uuid4, Quiet-now,
  Quiet-tell, Quiet-can, Quiet-upload, Quiet-enqueue,
)

module _ (o : Outside) where
  pub Quiet-record :
      (action outcome : String) (actor : Option Uuid) (type id : Option String)
      (details : Option Details) (request_id : Option String)
      → IsQuiet (record_event o action outcome actor type id details request_id)
  unfolding record_event AuditEvents.create
  Quiet-record action outcome actor type id details request_id s = search quiet

  pub Quiet-require_admin : (user_id : Uuid) → IsQuiet (require_admin o user_id)
  unfolding require_admin Authorization.require_permission
  Quiet-require_admin user_id s = search quiet

  pub Quiet-validate_role : (role : String) → IsQuiet (validate_role o role)
  unfolding validate_role
  Quiet-validate_role role s = search quiet

  pub Quiet-validate_roles : (roles : List String) → IsQuiet (for_each roles (validate_role o))
  Quiet-validate_roles roles s =
      Keeps-for_each roles (validate_role o) (λ role. Quiet-validate_role role s)

  pub Quiet-new_assignment :
      (user : Uuid) (role : String) (admin : Uuid) → IsQuiet (new_assignment o user role admin)
  unfolding new_assignment
  Quiet-new_assignment user role admin s = search quiet

  pub Quiet-create_role : (a : RoleAssignment) → IsQuiet (Roles.create o a)
  unfolding Roles.create
  Quiet-create_role a s = search quiet

  pub Quiet-assign : (user : Uuid) (role : String) → IsQuiet (Authorization.assign_role o user role)
  unfolding Authorization.assign_role
  Quiet-assign user role s = search quiet

  pub Quiet-assign_each :
      (roles : List String) (user admin : Uuid) → IsQuiet (assign_each o roles user admin)
  unfolding assign_each
  Quiet-assign_each [] user admin s = search quiet
  Quiet-assign_each (role ∷ roles) user admin s =
      let rest = Quiet-assign_each roles user admin s in
      search (quiet, Quiet-new_assignment, Quiet-create_role, Quiet-assign) depth 8

  pub Quiet-audit_change :
      (action : String) (user admin : Uuid) (details : Details) (request_id : Option String)
      → IsQuiet (audit_change o action user admin details request_id)
  unfolding audit_change
  Quiet-audit_change action user admin details request_id s = search (quiet, Quiet-record)

  pub Quiet-has_active_role :
      (user : Uuid) (role : String) → IsQuiet (Roles.has_active_role o user role)
  unfolding Roles.has_active_role
  Quiet-has_active_role user role s = search quiet

  pub Quiet-revoke_all : (user : Uuid) → IsQuiet (Roles.revoke_all_for_user o user)
  unfolding Roles.revoke_all_for_user Roles.get_active_roles
  Quiet-revoke_all user s = search quiet depth 8

  Quiet-revoke_found : (r : Option RoleAssignment) → IsQuiet (Roles.revoke_found o r)
  unfolding Roles.revoke_found
  Quiet-revoke_found none s = search quiet
  Quiet-revoke_found (some r) s = search quiet depth 8

  pub Quiet-revoke : (id : Uuid) → IsQuiet (Roles.revoke o id)
  unfolding Roles.revoke Roles.get_by_id
  Quiet-revoke id s = search (quiet, Quiet-revoke_found) depth 8

  pub Quiet-require_prediction : (p : Option Prediction) → IsQuiet (require_prediction o p)
  unfolding require_prediction
  Quiet-require_prediction none s = search quiet
  Quiet-require_prediction (some p) s = search quiet

  Quiet-batch_of : (d : Option Document) → IsQuiet (batch_of o d)
  unfolding batch_of
  Quiet-batch_of none s = search quiet
  Quiet-batch_of (some d) s = search quiet

  pub Quiet-cache_batch_id : (b : Option Uuid) (p : Prediction) → IsQuiet (cache_batch_id o b p)
  unfolding cache_batch_id Documents.get_by_id
  Quiet-cache_batch_id none p s = search (quiet, Quiet-batch_of) depth 8
  Quiet-cache_batch_id (some b) p s = search quiet

  Quiet-found_job : (j : Option ClassificationJob) → IsQuiet (found_job o j)
  unfolding found_job
  Quiet-found_job none s = search quiet
  Quiet-found_job (some j) s = search quiet

  pub Quiet-require_job : (id : Uuid) → IsQuiet (require_job o id)
  unfolding require_job Jobs.get_by_id
  Quiet-require_job id s = search (quiet, Quiet-found_job) depth 8

  pub Quiet-create_prediction :
      (doc meta : Uuid) (class : String) (confidence : Float) (scores : List (String × Float))
      (bucket key : String)
      → IsQuiet (create_prediction o doc meta class confidence scores bucket key)
  unfolding create_prediction Predictions.create Predictions.create_overlay
  Quiet-create_prediction doc meta class confidence scores bucket key s = search quiet depth 12

  pub Quiet-finish_job : (id doc : Uuid) (p : Prediction) → IsQuiet (finish_job o id doc p)
  unfolding finish_job
  Quiet-finish_job id doc p s = search (quiet, Quiet-require_job, Quiet-record) depth 12

  Quiet-reject_duplicate : (d : Option Document) → IsQuiet (reject_duplicate o d)
  unfolding reject_duplicate
  Quiet-reject_duplicate none s = search quiet
  Quiet-reject_duplicate (some d) s = search quiet

  pub Quiet-create_document :
      (path name : String) (content : Bytes) → IsQuiet (create_document o path name content)
  unfolding create_document validate_tiff Documents.find_active_duplicate create_batch
      Batches.create Documents.create
  Quiet-create_document path name content s = search (quiet, Quiet-reject_duplicate) depth 14

  pub Quiet-store_and_enqueue :
      (d : Document) (content : Bytes) (meta : Uuid) → IsQuiet (store_and_enqueue o d content meta)
  unfolding store_and_enqueue upload_to_storage upload_original Jobs.create
  Quiet-store_and_enqueue d content meta s = search quiet depth 14
