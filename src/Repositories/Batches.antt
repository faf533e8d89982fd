-- ===== src/Repositories/Batches.antt =====
-- backend/app/repositories/batches.py
use document_classifier_week.Prelude.{
  ℕ, Bool, true, false, Option, none, some, List, ◌==◌, nat_eq, select, take, drop,
}
use document_classifier_week.Models.{Change, Uuid, Batch, BatchStatus}
use document_classifier_week.Session.{
  Outside, M, pure, write, ◌>>=◌, ◌>>◌, statement, rows, rows_at, scalar_one_or_none,
}

abbrev same_status : BatchStatus → BatchStatus → Bool
same_status BatchStatus.pending BatchStatus.pending = true
same_status BatchStatus.processing BatchStatus.processing = true
same_status BatchStatus.completed BatchStatus.completed = true
same_status BatchStatus.failed BatchStatus.failed = true
same_status _ _ = false

-- `stmt.where(Batch.status == status)`, if a status is given
abbrev pub has_status : Option BatchStatus → Batch → Bool
has_status none b = true
has_status (some status) b = same_status b.status status

module _ (o : Outside) where
  unfoldable pub get_by_id : Uuid → M (Option Batch)
  get_by_id batch_id = do
    found ← rows o (λ db. select (λ b. b.id == batch_id) db.batches)
    scalar_one_or_none found

  unfoldable pub create : Batch → M Batch
  create b = do write (Change.add_batch b); statement o; pure b

  unfoldable pub list : Option BatchStatus → ℕ → ℕ → M (List Batch)
  list status limit offset = rows_at o (λ t db.
      take limit (drop offset (o.newest_batches t (select (has_status status) db.batches))))
