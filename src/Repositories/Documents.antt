-- ===== src/Repositories/Documents.antt =====
-- backend/app/repositories/documents.py
use document_classifier_week.Prelude.{
  String, Bool, not, ◌&&◌, Option, ◌==◌, nat_eq, string_eq, select,
}
use document_classifier_week.Models.{Change, Uuid, Document, is_failed}
use document_classifier_week.Session.{
  Outside, M, pure, write, ◌>>=◌, ◌>>◌, statement, rows, scalar_one_or_none,
}

-- an active document of this content and path
abbrev pub is_active_duplicate : String → String → Document → Bool
is_active_duplicate source_checksum source_path d =
    d.source_checksum == source_checksum
    && (d.source_path == source_path && not (is_failed d.ingestion_status))

module _ (o : Outside) where
  unfoldable pub get_by_id : Uuid → M (Option Document)
  get_by_id document_id = do
    found ← rows o (λ db. select (λ d. d.id == document_id) db.documents)
    scalar_one_or_none found

  unfoldable pub find_active_duplicate : String → String → M (Option Document)
  find_active_duplicate source_checksum source_path = do
    found ← rows o (λ db. select (is_active_duplicate source_checksum source_path) db.documents)
    scalar_one_or_none found

  unfoldable pub create : Document → M Document
  create d = do write (Change.add_document d); statement o; pure d
