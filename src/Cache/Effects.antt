-- ===== src/Cache/Effects.antt =====
-- What the invalidation functions may change, and that they never raise.
use document_classifier_week.Prelude.{
  String, ◌≡◌, refl, List, [], ◌∷◌, arith, ◌<>◌, inl, inr, Bool-cases, true, false, str,
}
use document_classifier_week.Models.{Uuid}
use document_classifier_week.Session.{
  Outside, World, M, ok, catch, ◌>>=◌, ◌>>◌, for_each, step, raise, redis_error,
  cache_invalidation_error,
}
use document_classifier_week.Session.Laws.{catch_ok, catch_err}
use document_classifier_week.Cache.{
  or_warn, delete, delete_cache_key, swallow, roles, cache_prefix, try_delete,
  invalidate_batch_list, invalidate_batch_detail, invalidate_prediction_detail,
  invalidate_audit_list, invalidate_user_roles, invalidate_after_classification,
  invalidate_after_relabel,
}

-- Nothing but the clock and the cache has changed.
pub record IsSame (w w' : World) : Type 0 where
  pub active : w'.active ≡ w.active
  pub db : w'.db ≡ w.db
  pub saved : w'.saved ≡ w.saved
  pub policies : w'.policies ≡ w.policies
  pub blobs : w'.blobs ≡ w.blobs
  pub queue : w'.queue ≡ w.queue

pub IsSame-trans : {u v w : World} → IsSame u v → IsSame v w → IsSame u w
IsSame-trans h k = record {
  active = cc;
  db = cc;
  saved = cc;
  policies = cc;
  blobs = cc;
  queue = cc;
}

-- The action returns, and leaves all but the cache alone.
pub record IsHarmless (m : M Unit) : Type 0 where
  pub returns : (w : World) → (m w).0 ≡ ok tt
  pub same : (w : World) → IsSame w (m w).1

IsHarmless-then : (m n : M Unit) → IsHarmless m → IsHarmless n → IsHarmless (m >> n)
IsHarmless-then m n hm hn = record {
  returns = λ w. ground (arith, hm.returns w, hn.returns (m w).1);
  same = λ w. rw (hm.returns w, ◌>>◌, ◌>>=◌) (IsSame-trans (hm.same w) (hn.same (m w).1));
}

IsHarmless-for_each :
    (f : String → M Unit) (xs : List String)
    → ((x : String) → IsHarmless (f x))
    → IsHarmless (for_each xs f)
unfolding for_each
IsHarmless-for_each f [] h = record {
  returns = λ w. refl;
  same = λ w. record {
    active = refl;
    db = refl;
    saved = refl;
    policies = refl;
    blobs = refl;
    queue = refl;
  };
}
IsHarmless-for_each f (x ∷ xs) h =
    IsHarmless-then (f x) (for_each xs f) (h x) (IsHarmless-for_each f xs h)

module _ (o : Outside) where
  try_delete_failed :
      (key : String) (w : World)
      → o.redis_fails w.tick (cache_prefix <> (":" <> key)) ≡ true
      → try_delete o key w ≡ (ok tt, step w)
  unfolding try_delete
  try_delete_failed key w e =
      catch_err (delete o key) (swallow o) {exc = cache_invalidation_error} {w' = step w} (
        catch_err (delete_cache_key o key) (λ exc. raise cache_invalidation_error)
          {exc = redis_error} {w' = step w} (rw e))

  try_delete_done :
      (key : String) (w : World)
      → o.redis_fails w.tick (cache_prefix <> (":" <> key)) ≡ false
      → try_delete o key w ≡ (
        ok tt,
        record (step w) { deleted_keys = (cache_prefix <> (":" <> key)) ∷ w.deleted_keys },
      )
  unfolding try_delete
  try_delete_done key w e =
      catch_ok (delete o key) (swallow o)
        (catch_ok (delete_cache_key o key) (λ exc. raise cache_invalidation_error) (rw e))

  try_delete-IsHarmless : (key : String) → IsHarmless (try_delete o key)
  try_delete-IsHarmless key = record {
    returns = λ w. elim (Bool-cases (o.redis_fails w.tick (cache_prefix <> (":" <> key)))) [
      | inl e ↦ rw (try_delete_failed key w e) refl
      | inr e ↦ rw (try_delete_done key w e) refl
    ];
    same = λ w. elim (Bool-cases (o.redis_fails w.tick (cache_prefix <> (":" <> key)))) [
      | inl e ↦ rw (try_delete_failed key w e) (ground arith)
      | inr e ↦ rw (try_delete_done key w e) (ground arith)
    ];
  }

  each_role-IsHarmless :
      (key : String → String) → IsHarmless (for_each roles (λ role. try_delete o (key role)))
  each_role-IsHarmless key =
      IsHarmless-for_each (λ role. try_delete o (key role)) roles (λ role. try_delete-IsHarmless _)

  pub batch_list-IsHarmless : IsHarmless (invalidate_batch_list o)
  unfolding invalidate_batch_list
  batch_list-IsHarmless = each_role-IsHarmless (λ role. "batches:list:" <> role)

  batch_detail-IsHarmless : (id : Uuid) → IsHarmless (invalidate_batch_detail o id)
  unfolding invalidate_batch_detail
  batch_detail-IsHarmless id =
      each_role-IsHarmless (λ role. "batches:detail:" <> (str id <> (":" <> role)))

  prediction_detail-IsHarmless : (id : Uuid) → IsHarmless (invalidate_prediction_detail o id)
  unfolding invalidate_prediction_detail
  prediction_detail-IsHarmless id =
      each_role-IsHarmless (λ role. "predictions:detail:" <> (str id <> (":" <> role)))

  audit_list-IsHarmless : IsHarmless (invalidate_audit_list o)
  unfolding invalidate_audit_list
  audit_list-IsHarmless = each_role-IsHarmless (λ role. "audit:list:" <> role)

  pub user_roles-IsHarmless : (id : Uuid) → IsHarmless (invalidate_user_roles o id)
  unfolding invalidate_user_roles
  user_roles-IsHarmless id =
      IsHarmless-then (try_delete o ("users:roles:" <> str id)) (invalidate_batch_list o)
        (try_delete-IsHarmless ("users:roles:" <> str id)) batch_list-IsHarmless

  pub after_classification-IsHarmless :
      (batch_id id : Uuid) → IsHarmless (invalidate_after_classification o batch_id id)
  unfolding invalidate_after_classification
  after_classification-IsHarmless batch_id id =
      IsHarmless-then (invalidate_batch_list o >> invalidate_batch_detail o batch_id)
        (invalidate_prediction_detail o id)
        (IsHarmless-then (invalidate_batch_list o) (invalidate_batch_detail o batch_id)
          batch_list-IsHarmless (batch_detail-IsHarmless batch_id))
        (prediction_detail-IsHarmless id)

  -- The invalidation after a relabeling always returns, whatever Redis answers, and changes neither
  -- the session nor the tables nor the policies nor the stored objects nor the queue.
  pub after_relabel-IsHarmless :
      (batch_id id : Uuid) → IsHarmless (invalidate_after_relabel o batch_id id)
  unfolding invalidate_after_relabel invalidate_after_classification
  after_relabel-IsHarmless batch_id id =
      IsHarmless-then (invalidate_after_classification o batch_id id) (invalidate_audit_list o)
        (after_classification-IsHarmless batch_id id) audit_list-IsHarmless

-- A handler around a harmless action has nothing to do.
or_warn-IsHarmless : (m : M Unit) → IsHarmless m → IsHarmless (or_warn m)
unfolding or_warn
or_warn-IsHarmless m h = record {
  returns = λ w. rw (h.returns w, catch);
  same = λ w. rw (h.returns w, catch) (h.same w);
}

pub or_warn-returns : (m : M Unit) (w : World) → IsHarmless m → (or_warn m w).0 ≡ ok tt
or_warn-returns m w h = (or_warn-IsHarmless m h).returns w

pub or_warn-IsSame : (m : M Unit) (w : World) → IsHarmless m → IsSame w (or_warn m w).1
or_warn-IsSame m w h = (or_warn-IsHarmless m h).same w
