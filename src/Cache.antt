-- ===== src/Cache.antt =====
-- backend/app/services/cache_invalidation.py, and `delete_cache_key` of backend/app/infra/cache.py.
pub mod Effects
use document_classifier_week.Prelude.{String, ◌<>◌, List, [], ◌∷◌, str, if◌then◌else◌}
use document_classifier_week.Models.{Uuid}
use document_classifier_week.Session.{
  Outside, Error, cache_invalidation_error, redis_error, World, M, ok, err, raise, pure, step,
  catch, ◌>>=◌, ◌>>◌, for_each,
}

abbrev pub roles : List String
roles = "admin" ∷ "reviewer" ∷ "auditor" ∷ []

abbrev pub cache_prefix : String
cache_prefix = "fastapi-cache"

-- `try: m except Exception: logger.warning(…)`, which ends the methods of the services
unfoldable pub or_warn : M Unit → M Unit
or_warn m = catch m (λ exc. pure tt)

module _ (o : Outside) where
  unfoldable pub delete_cache_key : String → M Unit
  delete_cache_key key w =
      let full_key = cache_prefix <> (":" <> key) in
      if o.redis_fails w.tick full_key
      then (err redis_error, step w)
      else (ok tt, record (step w) { deleted_keys = full_key ∷ w.deleted_keys })

  unfoldable pub delete : String → M Unit
  unfolding delete_cache_key
  delete key = catch (delete_cache_key key) (λ exc. raise cache_invalidation_error)

  -- `except CacheInvalidationError`: `delete` raises nothing else
  unfoldable pub swallow : Error → M Unit
  swallow cache_invalidation_error = pure tt
  swallow exc = raise exc

  unfoldable pub try_delete : String → M Unit
  unfolding delete swallow
  try_delete key = catch (delete key) swallow

  unfoldable pub invalidate_batch_list : M Unit
  unfolding try_delete for_each
  invalidate_batch_list = for_each roles (λ role. try_delete ("batches:list:" <> role))

  unfoldable pub invalidate_batch_detail : Uuid → M Unit
  unfolding try_delete for_each
  invalidate_batch_detail batch_id =
      for_each roles (λ role. try_delete ("batches:detail:" <> (str batch_id <> (":" <> role))))

  unfoldable pub invalidate_prediction_detail : Uuid → M Unit
  unfolding try_delete for_each
  invalidate_prediction_detail prediction_id =
      for_each roles
        (λ role. try_delete ("predictions:detail:" <> (str prediction_id <> (":" <> role))))

  unfoldable pub invalidate_audit_list : M Unit
  unfolding try_delete for_each
  invalidate_audit_list = for_each roles (λ role. try_delete ("audit:list:" <> role))

  unfoldable pub invalidate_user_roles : Uuid → M Unit
  unfolding invalidate_batch_list
  invalidate_user_roles user_id =
      try_delete ("users:roles:" <> str user_id) >> invalidate_batch_list

  unfoldable pub invalidate_after_classification : Uuid → Uuid → M Unit
  unfolding invalidate_batch_list invalidate_batch_detail invalidate_prediction_detail
  invalidate_after_classification batch_id prediction_id =
      invalidate_batch_list
      >> invalidate_batch_detail batch_id
      >> invalidate_prediction_detail prediction_id

  unfoldable pub invalidate_after_relabel : Uuid → Uuid → M Unit
  unfolding invalidate_batch_list invalidate_batch_detail invalidate_prediction_detail
      invalidate_audit_list
  invalidate_after_relabel batch_id prediction_id =
      invalidate_batch_list
      >> invalidate_batch_detail batch_id
      >> invalidate_prediction_detail prediction_id
      >> invalidate_audit_list
