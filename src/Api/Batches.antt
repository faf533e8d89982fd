-- ===== src/Api/Batches.antt =====
-- backend/app/api/batches.py
use document_classifier_week.Prelude.{Option, none, some, List}
use document_classifier_week.Models.{Uuid, Batch}
use document_classifier_week.Session.{Outside, http_exception, M, pure, raise, ◌>>=◌, ◌>>◌}
use document_classifier_week.Repositories.Batches
use document_classifier_week.Api.Dependencies.{require_permission}

unfoldable pub require_batch : Option Batch → M Batch
require_batch none = raise (http_exception 404)
require_batch (some b) = pure b

module _ (o : Outside) where
  unfoldable pub list_batches : Uuid → M (List Batch)
  list_batches user = do require_permission o user "batches" "read"; Batches.list o none 50 0

  unfoldable pub get_batch : Uuid → Uuid → M Batch
  get_batch user batch_id = do
    require_permission o user "batches" "read"
    found ← Batches.get_by_id o batch_id
    require_batch found
