-- ===== src/Invariants/Requests.antt =====
-- What the processes of the program do, as requests: the API handlers that change rows, the RQ job, and the
-- ingestion worker with its one long session.
use document_classifier_week.Prelude.{◌≡◌, refl, String, Option, List, [], ◌∷◌}
use document_classifier_week.Models.{Uuid, Db}
use document_classifier_week.Session.{
  Outside, World, M, ◌>>=◌, pure, for_each, rollback, in_session,
}
use document_classifier_week.Session.Keeps.{Keeps, Keeps-bind, Keeps-pure, Keeps-for_each}
use document_classifier_week.Session.Tables.{Holds, Holds-in_session}
use document_classifier_week.Sftp.{SftpFileInfo}
use document_classifier_week.RoleManagement
use document_classifier_week.PredictionReview
use document_classifier_week.IngestionWorker.{process_file}
use document_classifier_week.InferenceWorker
use document_classifier_week.UserManagement
use document_classifier_week.Invariants.Sound.{IsStable}
use document_classifier_week.Invariants.Services.{
  Holds-assign_role, Holds-revoke_role, Holds-replace_roles, Holds-relabel, Holds-process_file,
  Holds-classify_document, Holds-invite_user,
}

pub data Request : Type 0 where
  assign_role revoke_role : Uuid → String → Uuid → Option String → Request
  replace_roles : Uuid → List String → Uuid → Option String → Request
  relabel : Uuid → String → Uuid → Option Uuid → Option String → Request
  invite_user : String → Uuid → Option String → Request
  classify_document : Uuid → Uuid → Request
  process_files : List SftpFileInfo → Uuid → Request

module _ (o : Outside) where
  -- the value of the action is not kept
  abbrev done : {A : Type 0} → M A → M Unit
  done m = in_session o (m >>= λ a. pure tt)

  unfoldable pub run : Request → M Unit
  run (assign_role user role admin request_id) =
      done (RoleManagement.assign_role o user role admin request_id)
  run (revoke_role user role admin request_id) =
      done (RoleManagement.revoke_role o user role admin request_id)
  run (replace_roles user roles admin request_id) =
      done (RoleManagement.replace_roles o user roles admin request_id)
  run (relabel prediction label reviewer batch request_id) =
      done (PredictionReview.relabel o prediction label reviewer batch request_id)
  run (invite_user email admin request_id) =
      done (UserManagement.invite_user o email admin request_id)
  run (classify_document doc meta) = InferenceWorker.classify_document o doc meta
  run (process_files files meta) = in_session o (for_each files (λ f. process_file o f meta))

  -- the world after a history of requests, whatever each returned or raised
  unfoldable pub serve : List Request → World → World
  serve [] w = w
  serve (r ∷ requests) w = serve requests (run r w).1

module _ (o : Outside) {G : Db → Type 0} (stable : IsStable G) where
  Holds-done : {A : Type 0} (m : M A) → Keeps (Holds G) m → Keeps (Holds G) (done o m)
  Holds-done m k = Holds-in_session o _ (Keeps-bind m _ k (λ a. Keeps-pure tt))

  Holds-run : (r : Request) → Keeps (Holds G) (run o r)
  unfolding run
  Holds-run (assign_role user role admin request_id) =
      Holds-done _ (Holds-assign_role o stable user role admin request_id)
  Holds-run (revoke_role user role admin request_id) =
      Holds-done _ (Holds-revoke_role o stable user role admin request_id)
  Holds-run (replace_roles user roles admin request_id) =
      Holds-done _ (Holds-replace_roles o stable user roles admin request_id)
  Holds-run (relabel prediction label reviewer batch request_id) =
      Holds-done _ (Holds-relabel o stable prediction label reviewer batch request_id)
  Holds-run (invite_user email admin request_id) =
      Holds-done _ (Holds-invite_user o stable email admin request_id)
  Holds-run (classify_document doc meta) = Holds-classify_document o stable doc meta
  Holds-run (process_files files meta) =
      Holds-in_session o _ (Keeps-for_each files _ (λ f. Holds-process_file o stable f meta))

  -- A session starts from what is committed.
  run-rollback : (r : Request) (w : World) → run o r w ≡ run o r (rollback w)
  unfolding run in_session rollback InferenceWorker.classify_document
  run-rollback (assign_role user role admin request_id) w = refl
  run-rollback (revoke_role user role admin request_id) w = refl
  run-rollback (replace_roles user roles admin request_id) w = refl
  run-rollback (relabel prediction label reviewer batch request_id) w = refl
  run-rollback (invite_user email admin request_id) w = refl
  run-rollback (classify_document doc meta) w = refl
  run-rollback (process_files files meta) w = refl

  run-saved : (r : Request) (w : World) → G w.saved → G (run o r w).1.saved
  unfolding rollback
  run-saved r w h =
      rw (run-rollback r w)
        ((Holds-run r).at (rollback w) (record { seen = h; committed = h })).committed

  pub serve-saved : (requests : List Request) (w : World) → G w.saved → G (serve o requests w).saved
  unfolding serve
  serve-saved [] w h = h
  serve-saved (r ∷ requests) w h = serve-saved requests (run o r w).1 (run-saved r w h)
