-- ===== src/IngestionWorker/Tracking.antt =====
-- `seen_files` of backend/app/workers/ingestion_worker.py, a dict from file names, and the loop of
-- `_detect_stable_files` over a listing.
use document_classifier_week.Prelude.{
  ℕ, String, Bool, false, ◌&&◌, Option, none, some, List, [], ◌∷◌, map, ◌==◌, nat_eq, string_eq,
  select, contains, if◌then◌else◌,
}
use document_classifier_week.Models.{Time}
use document_classifier_week.Sftp.{SftpFileInfo}

-- `_SeenFile`
pub record SeenFile : Type 0 where
  pub size_bytes : ℕ
  pub modified_at : Time

abbrev pub Seen : Type 0
Seen = List (String × SeenFile)

-- `seen_files.get(filename)`
unfoldable pub lookup : String → Seen → Option SeenFile
lookup k [] = none
lookup k ((j, v) ∷ seen) = if j == k then some v else lookup k seen

-- `seen_files[filename] = v`
unfoldable pub insert : String → SeenFile → Seen → Seen
insert k v [] = (k, v) ∷ []
insert k v ((j, w) ∷ seen) = if j == k then (k, v) ∷ seen else (j, w) ∷ insert k v seen

abbrev pub seen_of : SftpFileInfo → SeenFile
seen_of f = record { size_bytes = f.size_bytes; modified_at = f.modified_at }

-- size and timestamp unchanged
abbrev pub is_unchanged : SftpFileInfo → Option SeenFile → Bool
is_unchanged f none = false
is_unchanged f (some prev) = f.size_bytes == prev.size_bytes && f.modified_at == prev.modified_at

-- The body of the loop: a stable file leaves the tracking alone, any other is recorded.
unfoldable pub observe : SftpFileInfo → Seen → Seen
unfolding lookup insert
observe f seen =
    if is_unchanged f (lookup f.filename seen) then seen else insert f.filename (seen_of f) seen

unfoldable pub scan : List SftpFileInfo → Seen → List SftpFileInfo × Seen
unfolding observe
scan [] seen = ([], seen)
scan (f ∷ files) seen =
    let (stable, seen') = scan files (observe f seen) in
    (if is_unchanged f (lookup f.filename seen) then f ∷ stable else stable, seen')

-- the tracking of files that disappeared is dropped
unfoldable pub purge : List SftpFileInfo → Seen → Seen
purge files seen = select (λ e. contains e.0 (map (λ f. f.filename) files)) seen

unfoldable pub detect : List SftpFileInfo → Seen → List SftpFileInfo × Seen
unfolding scan purge
detect files seen = let (stable, seen') = scan files seen in (stable, purge files seen')
