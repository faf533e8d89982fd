-- ===== src/Repositories/Users.antt =====
-- backend/app/repositories/users.py
use document_classifier_week.Prelude.{
  ℕ, String, Option, List, ◌==◌, nat_eq, string_eq, select, take, drop,
}
use document_classifier_week.Models.{Change, Uuid, User}
use document_classifier_week.Session.{
  Outside, M, pure, write, ◌>>=◌, ◌>>◌, statement, rows, rows_at, scalar_one_or_none,
}

module _ (o : Outside) where
  unfoldable pub get_by_id : Uuid → M (Option User)
  get_by_id user_id = do
    found ← rows o (λ db. select (λ u. u.id == user_id) db.users)
    scalar_one_or_none found

  unfoldable pub get_by_email : String → M (Option User)
  get_by_email email = do
    found ← rows o (λ db. select (λ u. u.email == email) db.users)
    scalar_one_or_none found

  unfoldable pub create : User → M User
  create u = do write (Change.add_user u); statement o; pure u

  unfoldable pub list : ℕ → ℕ → M (List User)
  list limit offset = rows_at o (λ t db. take limit (drop offset (o.oldest_users t db.users)))
