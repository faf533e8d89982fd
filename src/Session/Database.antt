-- ===== src/Session/Database.antt =====
-- The SQLAlchemy session. A statement that fails ends the transaction, and the session is unusable
-- until its rollback. Objects of the session are its rows: `db` holds their pending changes.
use document_classifier_week.Prelude.{
  ℕ, ◌+◌, true, false, Option, none, some, List, [], ◌∷◌, if◌then◌else◌,
}
use document_classifier_week.Models.{Uuid, Time, Db, Change, apply}
use document_classifier_week.Session.Errors.{
  database_error, pending_rollback, multiple_results_found,
}
use document_classifier_week.Session.Answers.{Outside}
use document_classifier_week.Session.Monad.{World, M, ok, err, pure, raise, step}

-- `scalar_one_or_none()`
unfoldable pub scalar_one_or_none : {A : Type 0} → List A → M (Option A)
scalar_one_or_none [] = pure none
scalar_one_or_none (x ∷ []) = pure (some x)
scalar_one_or_none (x ∷ y ∷ rest) = raise multiple_results_found

-- `session.rollback()`, and `session.close()` in the eyes of the next session
unfoldable pub rollback : World → World
rollback w = record w { active = true; db = w.saved }

-- a failed statement: nothing is pending any more
abbrev pub fail : World → World
fail w = record w { tick = w.tick + 1; active = false; db = w.saved }

-- a pending change of a row
unfoldable pub write : Change → M Unit
write c w = (ok tt, record w { db = apply c w.db })

module _ (o : Outside) where
  -- `session.execute(stmt)` with its rows, and `session.flush()`
  unfoldable pub statement : M Unit
  statement w =
      if w.active
      then (if o.database_fails w.tick then (err database_error, fail w) else (ok tt, step w))
      else (err pending_rollback, w)

  -- `session.execute(select …).scalars().all()`
  unfoldable pub rows : {A : Type 0} → (Db → List A) → M (List A)
  rows query w =
      if w.active
      then (if o.database_fails w.tick
          then (err database_error, fail w)
          else (ok (query w.db), step w))
      else (err pending_rollback, w)

  -- the rows of a query come in an order that the database chooses anew each time, within `ORDER BY`
  unfoldable pub rows_at : {A : Type 0} → (ℕ → Db → List A) → M (List A)
  unfolding rows
  rows_at query w = rows (query w.tick) w

  -- `session.commit()`
  unfoldable pub commit : M Unit
  commit w =
      if w.active
      then (if o.database_fails w.tick
          then (err database_error, fail w)
          else (ok tt, record (step w) { saved = w.db }))
      else (err pending_rollback, w)

  -- `uuid.uuid4()`, `datetime.now(timezone.utc)`
  unfoldable pub uuid4 : M Uuid
  uuid4 w = (ok (o.uuid4 w.tick), step w)

  unfoldable pub now : M Time
  now w = (ok (o.now w.tick), step w)

  -- `get_session` of backend/app/infra/db.py, and `with SessionFactory() as session`: a fresh
  -- session for `m`, closed at the end whatever happens.
  unfoldable pub in_session : {A : Type 0} → M A → M A
  unfolding rollback
  in_session m w = let (r, w') = m (rollback w) in (r, rollback w')
