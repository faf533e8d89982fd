-- ===== src/Api/Dependencies.antt =====
-- backend/app/api/dependencies.py, and the bounds of the query parameters of pages.
use document_classifier_week.Prelude.{ℕ, String, ltb, ◌||◌}
use document_classifier_week.Models.{Uuid}
use document_classifier_week.Session.{
  Outside, Error, permission_denied, http_exception, M, raise, raise_if, catch, pure, ◌>>◌,
}
use document_classifier_week.Authorization

-- `except PermissionDenied` of the dependency
abbrev pub forbidden : Error → Error
forbidden permission_denied = http_exception 403
forbidden e = e

-- `limit: Annotated[int, Query(ge=1, le=100)]`, checked after the dependencies
abbrev pub check_limit : ℕ → M Unit
check_limit limit = raise_if (ltb limit 1 || ltb 100 limit) (http_exception 422)

module _ (o : Outside) where
  -- The dependency gives the user.
  unfoldable pub require_permission : Uuid → String → String → M Uuid
  require_permission user resource action = do
    catch (Authorization.require_permission o user resource action) (λ e. raise (forbidden e))
    pure user
