-- ===== src/Session/Tables.antt =====
-- Invariants of the tables: what a session sees and what is committed both satisfy `G`.
use document_classifier_week.Prelude.{ℕ, List, arith}
use document_classifier_week.Models.{Db, Change, apply}
use document_classifier_week.Session.Answers.{Outside}
use document_classifier_week.Session.Monad.{World, M}
use document_classifier_week.Session.Keeps.{Keeps}
use document_classifier_week.Session.Database.{
  rollback, write, statement, rows, rows_at, commit, uuid4, now, in_session,
}

pub record Holds (G : Db → Type 0) (w : World) : Type 0 where
  pub seen : G w.db
  pub committed : G w.saved

module _ (o : Outside) {G : Db → Type 0} where
  pub Holds-statement : Keeps (Holds G) (statement o)
  unfolding statement
  Holds-statement = record { at = λ w h. ground arith }

  pub Holds-rows : {A : Type 0} (query : Db → List A) → Keeps (Holds G) (rows o query)
  unfolding rows
  Holds-rows query = record { at = λ w h. ground arith }

  pub Holds-rows_at : {A : Type 0} (query : ℕ → Db → List A) → Keeps (Holds G) (rows_at o query)
  unfolding rows_at
  Holds-rows_at query = record { at = λ w h. (Holds-rows (query w.tick)).at w h }

  pub Holds-commit : Keeps (Holds G) (commit o)
  unfolding commit
  Holds-commit = record { at = λ w h. ground arith }

  pub Holds-uuid4 : Keeps (Holds G) (uuid4 o)
  unfolding uuid4
  Holds-uuid4 = record { at = λ w h. ground arith }

  pub Holds-now : Keeps (Holds G) (now o)
  unfolding now
  Holds-now = record { at = λ w h. ground arith }

  pub Holds-in_session :
      {A : Type 0} (m : M A) → Keeps (Holds G) m → Keeps (Holds G) (in_session o m)
  unfolding in_session
  Holds-in_session m k = record {
    at = λ w h.
        let k' = k.at (rollback w) (record { seen = h.committed; committed = h.committed }) in
        record { seen = k'.committed; committed = k'.committed };
  }

module _ {G : Db → Type 0} where
  pub Holds-write : (c : Change) → ((db : Db) → G db → G (apply c db)) → Keeps (Holds G) (write c)
  unfolding write
  Holds-write c keep = record {
    at = λ w h. record { seen = keep w.db h.seen; committed = h.committed };
  }
