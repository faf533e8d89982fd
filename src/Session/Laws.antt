-- ===== src/Session/Laws.antt =====
-- How a bind and a handler go on, from what their first action did.
use document_classifier_week.Prelude.{◌≡◌}
use document_classifier_week.Session.Errors.{Error}
use document_classifier_week.Session.Monad.{World, M, ok, err, catch, ◌>>=◌}

module _ {A : Type 0} where
  pub catch_ok :
      (m : M A) (handler : Error → M A) {a : A} {w w' : World}
      → m w ≡ (ok a, w')
      → catch m handler w ≡ (ok a, w')
  catch_ok m handler e = rw (e, catch)

  pub catch_err :
      (m : M A) (handler : Error → M A) {exc : Error} {w w' : World}
      → m w ≡ (err exc, w')
      → catch m handler w ≡ handler exc w'
  catch_err m handler e = rw (e, catch)

module _ {A B : Type 0} where
  pub bind_ok :
      (m : M A) (f : A → M B) {a : A} {w w' : World} → m w ≡ (ok a, w') → (m >>= f) w ≡ f a w'
  bind_ok m f e = rw (e, ◌>>=◌)

  pub bind_err :
      (m : M A) (f : A → M B) {exc : Error} {w w' : World}
      → m w ≡ (err exc, w')
      → (m >>= f) w ≡ (err exc, w')
  bind_err m f e = rw (e, ◌>>=◌)
