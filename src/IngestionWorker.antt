-- ===== src/IngestionWorker.antt =====
-- backend/app/workers/ingestion_worker.py: the rounds of the inner loop. `seen_files` is the state
-- that the rounds hand on. The outer loop, with its sleeps and reconnections, is not modelled.
mod Tracking
pub mod Stability
unfoldable pub use Tracking.*
use document_classifier_week.Prelude.{ℕ, zero, suc, String, Option, none, some, List, [], ◌∷◌, str}
use document_classifier_week.Models.{Uuid, Bytes}
use document_classifier_week.Session.{
  Outside, Error, unsupported_file_type, duplicate_document, storage_error, M, Result, ok, err,
  pure, catch, ◌>>=◌, ◌>>◌, for_each, uuid4,
}
use document_classifier_week.Sftp.{SftpFileInfo, list_files, read_file_content}
use document_classifier_week.Ingestion.{ingest_file, mark_failed}

module _ (o : Outside) where
  -- a call whose failure is logged
  unfoldable pub attempt : {A : Type 0} → M A → M (Option A)
  attempt m = catch (m >>= λ a. pure (some a)) (λ exc. pure none)

  -- on a failed listing nothing is stable, and the tracking stays
  abbrev pub detected : Seen → Option (List SftpFileInfo) → List SftpFileInfo × Seen
  detected seen none = ([], seen)
  detected seen (some files) = detect files seen

  -- `_detect_stable_files`: the stable files, and the tracking after the round
  unfoldable pub detect_stable_files : String → Seen → M (List SftpFileInfo × Seen)
  detect_stable_files drop_dir seen = do
    files ← attempt (list_files o drop_dir)
    pure (detected seen files)

  -- the `except` clauses of `_process_file`
  unfoldable pub handle : SftpFileInfo → Error → M Unit
  handle file_info unsupported_file_type = do
    request_id ← uuid4 o
    mark_failed o file_info.remote_path file_info.filename (o.exc_text unsupported_file_type)
        (some (str request_id))
  handle file_info exc = pure tt

  -- the second `try` of `_process_file`
  unfoldable pub ingest_content : SftpFileInfo → Uuid → Option Bytes → M Unit
  ingest_content file_info model_metadata_id none = pure tt
  ingest_content file_info model_metadata_id (some content) =
      catch
        (uuid4 o >>= λ request_id.
          ingest_file o file_info.remote_path file_info.filename content model_metadata_id
            (some (str request_id))
          >> pure tt)
        (handle file_info)

  unfoldable pub process_file : SftpFileInfo → Uuid → M Unit
  process_file file_info model_metadata_id = do
    content ← attempt (read_file_content o file_info.remote_path)
    ingest_content file_info model_metadata_id content

  -- one round of the inner loop
  unfoldable pub poll : String → Uuid → Seen → M Seen
  poll drop_dir model_metadata_id seen = do
    (stable, seen') ← detect_stable_files drop_dir seen
    for_each stable (λ file_info. process_file file_info model_metadata_id)
    pure seen'

  -- the first `n` rounds of the endless inner loop, as long as none raises
  unfoldable pub polls : ℕ → String → Uuid → Seen → M Seen
  polls zero drop_dir model_metadata_id seen = pure seen
  polls (suc n) drop_dir model_metadata_id seen = do
    seen' ← poll drop_dir model_metadata_id seen
    polls n drop_dir model_metadata_id seen'
